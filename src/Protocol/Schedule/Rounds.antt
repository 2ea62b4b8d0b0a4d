-- ===== src/Protocol/Schedule/Rounds.antt =====
-- The loop of `decode_schedule` over the slots.
use jebao_flow_engine.Base.{
  ℕ, zero, suc, ◌+◌, ◌≡◌, refl, sym, ap, Bool, true, false, Option, none, some, List, [], ◌∷◌, ◌++◌,
  arith, inl, inr, Bool-cases, if◌then◌else◌, All, All-append, String, subst, ltb, ◌&&◌, not, map,
  ◌==◌, get_elem?,
}
use jebao_flow_engine.Base.Bytes.{Bytes}
use jebao_flow_engine.Base.Result.{
  Error, Result, Result-cases, ok, err, require, ensure, ◌>>=◌, value_error, index_error,
}
use jebao_flow_engine.Protocol.Models.{ScheduleEntry}
use jebao_flow_engine.Protocol.Schedule.{
  ScheduleSpec, Slots, byte_at, format_time, is_caught, is_unused, slot_of, decode_slot, add_slot,
  read_slot, read_slots,
}
use jebao_flow_engine.Protocol.Schedule.Times.{
  read_time-format_time, IsEntryOf, decode_slot-IsEntryOf,
}

-- A step that raises only what the loop catches.
abbrev pub IsCaught {ℓ} : {A : Type ℓ} → Result A → Type ℓ
IsCaught {A = A} r = (e : Error) → r ≡ err e → is_caught e ≡ true

pub ok-IsCaught {ℓ} : {A : Type ℓ} (a : A) → IsCaught (ok a)
ok-IsCaught a e h = cc

pub >>=-IsCaught {ℓ κ} :
    {A : Type ℓ} {B : Type κ} (first : Result A) (next : A → Result B)
    → IsCaught first
    → ((a : A) → IsCaught (next a))
    → IsCaught (first >>= next)
>>=-IsCaught (ok a) next hf hn = hn a
>>=-IsCaught (err raised) next hf hn = λ e h. hf e (cc)

pub require-IsCaught {ℓ} : {A : Type ℓ} (o : Option A) → IsCaught (require index_error o)
unfolding is_caught
require-IsCaught none e h = cc
require-IsCaught (some a) e h = cc

pub ensure-IsCaught : (test : Bool) → IsCaught (ensure test value_error)
unfolding is_caught
ensure-IsCaught true e h = cc
ensure-IsCaught false e h = cc

value_error-IsCaught {ℓ} : {A : Type ℓ} → IsCaught {A = A} (err value_error)
unfolding is_caught
value_error-IsCaught e h = cc

format_time-IsCaught :
    (hour minute : ℕ) (allow_24 : Bool) → IsCaught (format_time hour minute allow_24)
format_time-IsCaught hour minute allow_24 = elim (read_time-format_time hour minute allow_24) [
  | inl (_, (text, made, _)) ↦ subst IsCaught (sym made) (ok-IsCaught text)
  | inr (_, failed) ↦ subst IsCaught (sym failed) (value_error-IsCaught)
]

decode_slot-IsCaught :
    (spec : ScheduleSpec) (slot : Bytes) (slot_index : ℕ)
    → ((mode : String) → IsCaught (spec.decode_parameters mode slot))
    → IsCaught (decode_slot spec slot slot_index)
unfolding decode_slot
decode_slot-IsCaught spec slot slot_index h =
    >>=-IsCaught (byte_at slot 0) _ (require-IsCaught _) λ h1.
      >>=-IsCaught (byte_at slot 1) _ (require-IsCaught _) λ m1.
        >>=-IsCaught (format_time h1 m1 false) _ (format_time-IsCaught h1 m1 false) λ start.
          >>=-IsCaught (byte_at slot 2) _ (require-IsCaught _) λ h2.
            >>=-IsCaught (byte_at slot 3) _ (require-IsCaught _) λ m2.
              >>=-IsCaught (format_time h2 m2 true) _ (format_time-IsCaught h2 m2 true) λ stop.
                >>=-IsCaught (byte_at slot 4) _ (require-IsCaught _) λ code.
                  >>=-IsCaught (require index_error (get_elem? spec.modes code)) _
                    (require-IsCaught _)
                    λ mode.
                      >>=-IsCaught (spec.decode_parameters mode slot) _ (h mode)
                        λ parameters. ok-IsCaught _

-- How often a number occurs in a list.
unfoldable pub occurrences : ℕ → List ℕ → ℕ
occurrences n [] = 0
occurrences n (m ∷ ms) = (if m == n then 1 else 0) + occurrences n ms

occurrences-snoc :
    (n m : ℕ) (ms : List ℕ)
    → occurrences n (ms ++ (m ∷ [])) ≡ occurrences n ms + (if m == n then 1 else 0)
unfolding occurrences
occurrences-snoc n m [] = ground arith
occurrences-snoc n m (x ∷ ms) = omega (arith, occurrences-snoc n m ms)

abbrev pub slots_of : List ScheduleEntry → List ℕ
slots_of entries = map (λ (e : ScheduleEntry). e.slot) entries

-- What the loop has done after `count` rounds: a used slot is in one of the lists, once, and an unused slot in none;
-- an entry says what its slot holds, and the slot of an invalid index does not decode.
pub record IsRead (spec : ScheduleSpec) (raw : Bytes) (count : ℕ) (s : Slots) : Type 0 where
  pub read_once :
      (i : ℕ)
      → occurrences i (slots_of s.entries) + occurrences i s.invalid_slots
        ≡ (if ltb i count && not (is_unused (slot_of spec raw i)) then 1 else 0)
  pub entries_right : All (λ e. IsEntryOf spec (slot_of spec raw e.slot) e) s.entries
  pub invalid_right :
      All
        (λ i. (raised : Error) × (decode_slot spec (slot_of spec raw i) i ≡ err raised))
        s.invalid_slots

slots_of-snoc :
    (entries : List ScheduleEntry) (e : ScheduleEntry)
    → slots_of (entries ++ (e ∷ [])) ≡ slots_of entries ++ (e.slot ∷ [])
slots_of-snoc [] e = refl
slots_of-snoc (x ∷ entries) e = ap (λ t. x.slot ∷ t) (slots_of-snoc entries e)

module _ (spec : ScheduleSpec) (raw : Bytes) where
  abbrev IsSafe : Type 0
  IsSafe = (mode : String) (slot : Bytes) → IsCaught (spec.decode_parameters mode slot)

  add_slot_lem :
      (count : ℕ) (s : Slots)
      → IsSafe
      → IsRead spec raw count s
      → is_unused (slot_of spec raw count) ≡ false
      → (t : Slots) × (add_slot count s (decode_slot spec (slot_of spec raw count) count) ≡ ok t)
        × IsRead spec raw (suc count) t
  unfolding add_slot
  add_slot_lem count s safe r used =
      let slot = slot_of spec raw count in
      elim (Result-cases (decode_slot spec slot count)) [
        | inl (e, done) ↦
            let (right, same) = decode_slot-IsEntryOf spec slot count e done in
            (
              record s { entries = s.entries ++ (e ∷ []) },
              rw done refl,
              record {
                read_once = λ i. rw slots_of-snoc (
                    ground (
                      arith,
                      occurrences-snoc i e.slot (slots_of s.entries),
                      r.read_once i,
                      used,
                      same,
                    ));
                entries_right =
                    All-append _ s.entries (e ∷ []) r.entries_right
                      (subst (λ i. IsEntryOf spec (slot_of spec raw i) e) (sym same) right, tt);
                invalid_right = r.invalid_right;
              },
            )
        | inr (raised, failed) ↦ (
          record s { invalid_slots = s.invalid_slots ++ (count ∷ []) },
          rw (failed, decode_slot-IsCaught spec slot count (λ m. safe m slot) raised failed) refl,
          record {
            read_once =
                λ i. ground (arith, occurrences-snoc i count s.invalid_slots, r.read_once i, used);
            entries_right = r.entries_right;
            invalid_right =
                All-append _ s.invalid_slots (count ∷ []) r.invalid_right ((raised, failed), tt);
          },
        )
      ]

  read_slot_lem :
      (count : ℕ) (s : Slots)
      → IsSafe
      → IsRead spec raw count s
      → (t : Slots) × (read_slot spec raw count s ≡ ok t) × IsRead spec raw (suc count) t
  unfolding read_slot
  read_slot_lem count s safe r = elim (Bool-cases (is_unused (slot_of spec raw count))) [
    | inl unused ↦ (
      s,
      rw unused refl,
      record {
        read_once = λ i. ground (arith, r.read_once i, unused);
        entries_right = r.entries_right;
        invalid_right = r.invalid_right;
      },
    )
    | inr used ↦ rw used (add_slot_lem count s safe r used)
  ]

  pub read_slots_lem :
      (count : ℕ)
      → IsSafe
      → (s : Slots) × (read_slots spec raw count ≡ ok s) × IsRead spec raw count s
  unfolding read_slots occurrences
  read_slots_lem zero safe = (
    record { entries = []; invalid_slots = [] },
    refl,
    record { read_once = λ i. ground arith; entries_right = tt; invalid_right = tt },
  )
  read_slots_lem (suc count) safe =
      let (s, done, r) = read_slots_lem count safe in
      let (t, stepped, r2) = read_slot_lem count s safe r in (t, rw (done, stepped) refl, r2)
