-- ===== src/Controller/Emitter.antt =====
-- internal/controller/diagnostics.go: which diagnostics are emitted. The LRU list holds the state of
-- each source, the one used last in front; the map that indexes it is the list itself.
pub mod Laws
pub mod Notes
use labdns.Base.{
  ℕ, suc, zero, ◌+◌, ◌-◌, ◌≤◌, ◌<◌, ◌≡◌, ◌↔◌, refl, ◌⊎◌, inl, inr, Bool, true, false, ◌&&◌, ◌||◌,
  not, Option, none, some, List, [], ◌∷◌, ◌++◌, Text, Map, lookup, insert, delete, retain, keys,
  length, ltb, leb, arith, if◌then◌else◌, ◌==◌, list_eq, nat_eq, pair_eq, contains, set_insert,
  keep, Distinct, Eq, list_beq_iff, lookup-insert, lookup-delete, contains-keep, is_empty, map,
  get_or, Option-cases, Bool-cases,
}
use labdns.Source.Diagnostics.{Diagnostic}

-- `diagnosticSourceKey`
pub record SourceKey : Type 0 where
  pub kind : Text
  pub namespace : Text
  pub name : Text
  pub uid : Text

abbrev pub source_beq : SourceKey → SourceKey → Bool
source_beq a b =
    (a.kind == b.kind) && (a.namespace == b.namespace) && (a.name == b.name) && (a.uid == b.uid)

pub source_beq_iff : (a b : SourceKey) → (source_beq a b ≡ true) ↔ (a ≡ b)
source_beq_iff a b = ground (
  arith,
  list_beq_iff a.kind b.kind,
  list_beq_iff a.namespace b.namespace,
  list_beq_iff a.name b.name,
  list_beq_iff a.uid b.uid,
)

instance abbrev pub source_eq : Eq SourceKey
source_eq = record { beq = source_beq; beq_iff = source_beq_iff }

-- When each diagnostic was emitted last.
abbrev pub Conditions : Type 0
Conditions = Map Diagnostic ℕ

pub record Emitter : Type 0 where
  pub capacity : ℕ
  pub interval : ℕ
  pub lru : Map SourceKey Conditions

abbrev pub source_capacity : ℕ
source_capacity = 4096

abbrev pub condition_limit : ℕ
condition_limit = 128

-- Five minutes, in nanoseconds.
abbrev pub repeat_interval : ℕ
repeat_interval = 300000000000

abbrev pub new_emitter : Emitter
new_emitter = record { capacity = source_capacity; interval = repeat_interval; lru = [] }

-- The oldest condition that is not the protected one; the first of them at a tie.
unfoldable pub oldest_from :
    Diagnostic → Option (Diagnostic × ℕ) → Conditions → Option (Diagnostic × ℕ)
oldest_from protected best [] = best
oldest_from protected none ((d, at) ∷ conditions) =
    oldest_from protected (if d == protected then none else some (d, at)) conditions
oldest_from protected (some (oldest, oldest_at)) ((d, at) ∷ conditions) =
    oldest_from protected
      (if not (d == protected) && ltb at oldest_at then some (d, at) else some (oldest, oldest_at))
      conditions

unfoldable pub evict_oldest_condition : Diagnostic → Conditions → Conditions
unfolding oldest_from
evict_oldest_condition protected conditions = elim (oldest_from protected none conditions) [
  | none ↦ conditions
  | some (oldest, at) ↦ delete oldest conditions
]

-- The front of the list: at most so many.
abbrev pub first_entries : ℕ → Map SourceKey Conditions → Map SourceKey Conditions
first_entries zero lru = []
first_entries (suc n) [] = []
first_entries (suc n) (entry ∷ lru) = entry ∷ first_entries n lru

abbrev pub effective_capacity : Emitter → ℕ
effective_capacity e = if leb e.capacity 0 then source_capacity else e.capacity

-- The state of a source, moved to the front. A new one takes the place of those at the back: the loop
-- removes the last while there are as many as the capacity.
unfoldable pub touch : SourceKey → Emitter → Conditions × Emitter
touch key e = elim (lookup key e.lru) [
  | some conditions ↦ (conditions, record e { lru = (key, conditions) ∷ delete key e.lru })
  | none ↦ ([], record e { lru = (key, []) ∷ first_entries (effective_capacity e - 1) e.lru })
]

abbrev set_front : Conditions → Map SourceKey Conditions → Map SourceKey Conditions
set_front conditions [] = []
set_front conditions ((key, old) ∷ lru) = (key, conditions) ∷ lru

-- Whether a diagnostic that was emitted at that time is emitted again.
abbrev pub is_due : ℕ → ℕ → Option ℕ → Bool
is_due interval now none = true
is_due interval now (some last) = leb (last + interval) now

abbrev pub note_condition : Diagnostic → ℕ → Conditions → Conditions
note_condition diagnostic now conditions =
    let noted = insert diagnostic now conditions in
    if ltb condition_limit (length noted) then evict_oldest_condition diagnostic noted else noted

-- `report`: whether the diagnostic is emitted, and the emitter then.
unfoldable pub report : SourceKey → Diagnostic → ℕ → Emitter → Bool × Emitter
unfolding touch evict_oldest_condition
report key diagnostic now e =
    let (conditions, e') = touch key e in
    if is_due e.interval now (lookup diagnostic conditions)
    then (true, record e' { lru = set_front (note_condition diagnostic now conditions) e'.lru })
    else (false, e')

-- `clearMissing`: the diagnostics that the last reconciliation did not see may be emitted again at once.
unfoldable pub clear_missing : SourceKey → List Diagnostic → Emitter → Emitter
clear_missing key seen e = elim (lookup key e.lru) [
  | none ↦ e
  | some conditions ↦
      let left = retain (λ d at. contains seen d) conditions in
      if is_empty left
      then record e { lru = delete key e.lru }
      else record e { lru = (key, left) ∷ delete key e.lru }
]

abbrev pub is_source : Text → Text → Text → SourceKey → Bool
is_source kind namespace name key =
    (key.kind == kind) && (key.namespace == namespace) && (key.name == name)

unfoldable pub delete_source : Text → Text → Text → Emitter → Emitter
delete_source kind namespace name e = record e {
  lru = retain (λ key conditions. not (is_source kind namespace name key)) e.lru;
}

-- `diagnosticSession`: the diagnostics that one reconciliation has seen.
pub record Session : Type 0 where
  pub key : SourceKey
  pub seen : List Diagnostic

unfoldable pub begin : SourceKey → Session
begin key = record { key = key; seen = [] }

unfoldable pub session_report : Session → Diagnostic → ℕ → Emitter → Bool × (Session × Emitter)
unfolding report
session_report s diagnostic now e =
    if contains s.seen diagnostic
    then (false, (s, e))
    else let (emitted, e') = report s.key diagnostic now e in
      (emitted, (record s { seen = set_insert diagnostic s.seen }, e'))

unfoldable pub finish : Session → Bool → Emitter → Emitter
unfolding clear_missing
finish s success e = if success then clear_missing s.key s.seen e else e

-- One report, with whether it was emitted.
pub record Report : Type 0 where
  pub source : SourceKey
  pub diagnostic : Diagnostic
  pub now : ℕ

unfoldable pub report_all : Emitter → List Report → Emitter
unfolding report
report_all e [] = e
report_all e (r ∷ rs) = report_all ((report r.source r.diagnostic r.now e).1) rs
