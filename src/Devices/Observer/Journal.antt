-- ===== src/Devices/Observer/Journal.antt =====
-- The journal of devices/observer.py along a run of reports.
use jebao_flow_engine.Base.{
  ◌≡◌, refl, sym, ap, subst, ◌∙◌, Bool, true, false, not, ◌&&◌, ◌||◌, List, [], ◌∷◌, ◌++◌, String,
  str_eq, any, ℕ, Option, none, some, if◌then◌else◌, Bool-cases, inl, inr, arith, eq_iff,
}
use jebao_flow_engine.Base.Dict.{lookup}
use jebao_flow_engine.Devices.Observer.Reports.{
  JournalEvent, JournalRecord, Observer, add, append, discard, is_offline, journal_offline,
  journal_state, report_offline, report_state, signature_eq, went_offline,
}
use jebao_flow_engine.Protocol.Models.{DeviceState}

-- Whether the last record of a device says that it went offline.
abbrev says_offline : JournalEvent → Bool
says_offline went_offline = true
says_offline _ = false

unfoldable pub ends_offline : String → Bool → List JournalRecord → Bool
ends_offline id before [] = before
ends_offline id before (r ∷ records) =
    ends_offline id (if str_eq r.device_id id then says_offline r.event else before) records

ends_offline-snoc :
    (id : String) (before : Bool) (records : List JournalRecord) (r : JournalRecord)
    → ends_offline id before (records ++ (r ∷ []))
      ≡ (if str_eq r.device_id id then says_offline r.event else ends_offline id before records)
unfolding ends_offline
ends_offline-snoc id before [] r = refl
ends_offline-snoc id before (x ∷ records) r =
    ends_offline-snoc id (if str_eq x.device_id id then says_offline x.event else before) records r

-- The set of offline devices is the one that the journal tells.
unfoldable pub IsTold : Observer → Type 0
IsTold o = (id : String) → is_offline id o ≡ ends_offline id false o.journal

any-discard :
    (id device_id : String) (ids : List String)
    → any (str_eq id) (discard device_id ids) ≡ (not (str_eq device_id id) && any (str_eq id) ids)
any-discard id device_id [] = ground arith
any-discard id device_id (x ∷ ids) =
    ground
      (arith, eq_iff id x, eq_iff device_id x, eq_iff device_id id, any-discard id device_id ids)

any-add :
    (id device_id : String) (ids : List String)
    → any (str_eq id) (add device_id ids) ≡ (str_eq device_id id || any (str_eq id) ids)
any-add id device_id ids = elim (Bool-cases (any (str_eq device_id) ids)) [
  | inl held ↦ elim (Bool-cases (str_eq device_id id)) [
    | inl same ↦
        rw (held, same) (subst (λ d. any (str_eq d) ids ≡ true) ((eq_iff device_id id).0 same) held)
    | inr apart ↦ rw (held, apart) refl
  ]
  | inr free ↦ rw free (ground (arith, eq_iff id device_id, eq_iff device_id id))
]

-- Both reports put a record at the journal's end, or leave the journal.
journal_offline-told :
    (id device_id error : String) (now : ℕ) (was_offline : Bool) (o : Observer)
    → ends_offline id false (journal_offline device_id error now was_offline o).journal
      ≡ (if not was_offline && str_eq device_id id then true else ends_offline id false o.journal)
unfolding journal_offline append
journal_offline-told id device_id error now true o = refl
journal_offline-told id device_id error now false o = ends_offline-snoc id false o.journal _

journal_state-told :
    (id device_id : String) (state : DeviceState) (previous : Option DeviceState)
    (was_offline : Bool) (o : Observer)
    → (was_offline ≡ false → str_eq device_id id ≡ true → ends_offline id false o.journal ≡ false)
    → ends_offline id false (journal_state device_id state previous was_offline o).journal
      ≡ (if str_eq device_id id then false else ends_offline id false o.journal)
unfolding journal_state append
journal_state-told id device_id state none was_offline o h = ends_offline-snoc id false o.journal _
journal_state-told id device_id state (some previous) true o h =
    ends_offline-snoc id false o.journal _
journal_state-told id device_id state (some previous) false o h =
    elim (Bool-cases (signature_eq previous state)) [
      | inr changed ↦ rw changed (ends_offline-snoc id false o.journal _)
      | inl same ↦ rw same (elim (Bool-cases (str_eq device_id id)) [
        | inl here ↦ rw here (h refl here)
        | inr apart ↦ rw apart refl
      ])
    ]

journal_state-offline_ids :
    (device_id : String) (state : DeviceState) (previous : Option DeviceState) (was_offline : Bool)
    (o : Observer)
    → (journal_state device_id state previous was_offline o).offline_ids ≡ o.offline_ids
unfolding journal_state append
journal_state-offline_ids device_id state none was_offline o = refl
journal_state-offline_ids device_id state (some previous) true o = refl
journal_state-offline_ids device_id state (some previous) false o =
    elim (Bool-cases (signature_eq previous state)) [
      | inl same ↦ rw same refl
      | inr changed ↦ rw changed refl
    ]

journal_offline-offline_ids :
    (device_id error : String) (now : ℕ) (was_offline : Bool) (o : Observer)
    → (journal_offline device_id error now was_offline o).offline_ids ≡ o.offline_ids
unfolding journal_offline append
journal_offline-offline_ids device_id error now true o = refl
journal_offline-offline_ids device_id error now false o = refl

report_state-IsTold :
    (device_id : String) (state : DeviceState) (o : Observer)
    → IsTold o
    → IsTold (report_state device_id state o)
unfolding IsTold report_state
report_state-IsTold device_id state o told id =
    ap (any (str_eq id)) (
      journal_state-offline_ids device_id state (lookup device_id o.last_states)
        (is_offline device_id o) _)
    ∙ (any-discard id device_id o.offline_ids
        ∙ (cases id device_id (is_offline id o) _ (told id)
            ∙ sym (
                journal_state-told id device_id state (lookup device_id o.last_states)
                  (is_offline device_id o) _
                  (λ was same.
                    sym (told id)
                    ∙ subst (λ d. is_offline d o ≡ false) ((eq_iff device_id id).0 same) was))))
  where
    cases :
        (id device_id : String) (was told_so : Bool)
        → was ≡ told_so
        → (not (str_eq device_id id) && was) ≡ (if str_eq device_id id then false else told_so)
    cases id device_id was told_so h = ground (arith, h)

report_offline-IsTold :
    (device_id error : String) (now : ℕ) (o : Observer)
    → IsTold o
    → IsTold (report_offline device_id error now o)
unfolding IsTold report_offline
report_offline-IsTold device_id error now o told id =
    ap (any (str_eq id))
      (journal_offline-offline_ids device_id error now (is_offline device_id o) _)
    ∙ (any-add id device_id o.offline_ids
        ∙ (either id device_id (is_offline device_id o) (is_offline id o) _ (told id)
              (λ same. ap (λ d. is_offline d o) ((eq_iff device_id id).0 same))
            ∙ sym (journal_offline-told id device_id error now (is_offline device_id o) _)))
  where
    either :
        (id device_id : String) (was here told_so : Bool)
        → here ≡ told_so
        → (str_eq device_id id ≡ true → was ≡ here)
        → (str_eq device_id id || here) ≡ (if not was && str_eq device_id id then true else told_so)
    either id device_id was here told_so h k = ground (arith, h, k)

-- One report.
pub data Step : Observer → Observer → Type 0 where
  reads :
      {o : Observer} (device_id : String) (state : DeviceState)
      → Step o (report_state device_id state o)
  fails :
      {o : Observer} (device_id error : String) (now : ℕ)
      → Step o (report_offline device_id error now o)

pub data Reaches : Observer → Observer → Type 0 where
  stay : {o : Observer} → Reaches o o
  go : {o p q : Observer} → Step o p → Reaches p q → Reaches o q

-- Whatever the observer reports, in whatever order, its set of offline devices stays the one that the journal tells:
-- a device is in the set exactly if its last record there says that it went offline.
pub Reaches-IsTold : (o p : Observer) → Reaches o p → IsTold o → IsTold p
Reaches-IsTold o p stay told = told
Reaches-IsTold o p (go (reads device_id state) rest) told =
    Reaches-IsTold _ p rest (report_state-IsTold device_id state o told)
Reaches-IsTold o p (go (fails device_id error now) rest) told =
    Reaches-IsTold _ p rest (report_offline-IsTold device_id error now o told)
