-- ===== src/Controller/Emitter/Laws.antt =====
-- What the emitter keeps: a bounded number of sources, and one emission per interval.
use labdns.Base.{
  ℕ, suc, zero, ◌+◌, ◌-◌, ◌≤◌, ◌≡◌, refl, inl, inr, ◌∙◌, true, false, ◌&&◌, not, Option, none, some,
  List, [], ◌∷◌, Map, lookup, insert, delete, length, ltb, leb, arith, if◌then◌else◌, ◌==◌, list_eq,
  nat_eq, pair_eq, lookup-insert, lookup-delete, Option-cases, Bool-cases, ==_refl, ==_iff,
}
use labdns.Source.Diagnostics.{Diagnostic}
use labdns.Controller.Emitter.{
  SourceKey, source_eq, Conditions, Emitter, oldest_from, evict_oldest_condition, touch, report,
  note_condition, is_due, effective_capacity, first_entries, Report, report_all,
}

length-delete :
    (key : SourceKey) (lru : Map SourceKey Conditions) → length (delete key lru) ≤ length lru
unfolding delete
length-delete key [] = omega arith
length-delete key ((k, c) ∷ lru) = ground (arith, length-delete key lru)

length-delete_found :
    (key : SourceKey) (lru : Map SourceKey Conditions) (c : Conditions)
    → lookup key lru ≡ some c
    → suc (length (delete key lru)) ≤ length lru
unfolding delete lookup
length-delete_found key [] c h = ground arith
length-delete_found key ((k, d) ∷ lru) c h =
    ground (arith, length-delete key lru, length-delete_found key lru c)

length-first_entries : (n : ℕ) (lru : Map SourceKey Conditions) → length (first_entries n lru) ≤ n
length-first_entries zero lru = omega arith
length-first_entries (suc n) [] = omega arith
length-first_entries (suc n) (entry ∷ lru) = ground (arith, length-first_entries n lru)

-- No more sources than the capacity.
abbrev pub IsBounded : Emitter → Type 0
IsBounded e = length e.lru ≤ effective_capacity e

abbrev OtherThan : Diagnostic → Option (Diagnostic × ℕ) → Type 0
OtherThan d none = Unit
OtherThan d (some (b, t)) = (b == d) ≡ false

first_other : (d c : Diagnostic) (t : ℕ) → OtherThan d (if c == d then none else some (c, t))
first_other d c t = elim (Bool-cases (c == d)) [
  | inl same ↦ rw same tt
  | inr other ↦ rw other other
]

older_other :
    (d c x : Diagnostic) (t s : ℕ)
    → (x == d) ≡ false
    → OtherThan d (if not (c == d) && ltb t s then some (c, t) else some (x, s))
older_other d c x t s h = elim (Bool-cases (c == d)) [
  | inl same ↦ rw same h
  | inr other ↦ elim (Bool-cases (ltb t s)) [
    | inl older ↦ rw other (rw older other)
    | inr newer ↦ rw other (rw newer h)
  ]
]

oldest_from-OtherThan :
    (d : Diagnostic) (best : Option (Diagnostic × ℕ)) (conditions : Conditions)
    → OtherThan d best
    → OtherThan d (oldest_from d best conditions)
unfolding oldest_from
oldest_from-OtherThan d best [] h = h
oldest_from-OtherThan d none ((c, t) ∷ conditions) h =
    oldest_from-OtherThan d (if c == d then none else some (c, t)) conditions (first_other d c t)
oldest_from-OtherThan d (some (x, s)) ((c, t) ∷ conditions) h =
    oldest_from-OtherThan d (if not (c == d) && ltb t s then some (c, t) else some (x, s))
      conditions (older_other d c x t s h)

lookup-delete_other :
    (d : Diagnostic) (conditions : Conditions) (best : Option (Diagnostic × ℕ))
    → OtherThan d best
    → lookup d (elim best [ none ↦ conditions | some (oldest, at) ↦ delete oldest conditions ])
      ≡ lookup d conditions
lookup-delete_other d conditions none h = refl
lookup-delete_other d conditions (some (o, at)) h =
    ground (arith, h, lookup-delete o conditions d, ==_iff o d, ==_iff d o)

lookup-evict_oldest_condition :
    (d : Diagnostic) (conditions : Conditions)
    → lookup d (evict_oldest_condition d conditions) ≡ lookup d conditions
unfolding evict_oldest_condition
lookup-evict_oldest_condition d conditions =
    lookup-delete_other d conditions (oldest_from d none conditions)
      (oldest_from-OtherThan d none conditions tt)

lookup-note_condition :
    (d : Diagnostic) (now : ℕ) (conditions : Conditions)
    → lookup d (note_condition d now conditions) ≡ some now
lookup-note_condition d now conditions = ground (
  arith,
  lookup-evict_oldest_condition d (insert d now conditions),
  lookup-insert d now conditions d,
  ==_refl d,
)

touch_absent :
    (key : SourceKey) (e : Emitter)
    → lookup key e.lru ≡ none
    → touch key e
      ≡ ([], record e { lru = (key, []) ∷ first_entries (effective_capacity e - 1) e.lru })
unfolding touch
touch_absent key e h = rw (h, touch) refl

touch_found :
    (key : SourceKey) (e : Emitter) (c : Conditions)
    → lookup key e.lru ≡ some c
    → touch key e ≡ (c, record e { lru = (key, c) ∷ delete key e.lru })
unfolding touch
touch_found key e c h = rw (h, touch) refl

-- The state of a source is in front after it was used.
touch_front :
    (key : SourceKey) (e : Emitter)
    → (c : Conditions) × (rest : Map SourceKey Conditions) × (touch key e
        ≡ (c, record e { lru = (key, c) ∷ rest }))
      × (IsBounded e → IsBounded (record e { lru = (key, c) ∷ rest }))
touch_front key e = elim (Option-cases (lookup key e.lru)) [
  | inl absent ↦ (
    [],
    first_entries (effective_capacity e - 1) e.lru,
    touch_absent key e absent,
    λ h. ground (arith, length-first_entries (effective_capacity e - 1) e.lru),
  )
  | inr (c, there) ↦ (
    c,
    delete key e.lru,
    touch_found key e c there,
    λ h. ground (arith, h, length-delete_found key e.lru c there),
  )
]

report_due :
    (key : SourceKey) (d : Diagnostic) (now : ℕ) (e : Emitter) (c : Conditions)
    (rest : Map SourceKey Conditions)
    → touch key e ≡ (c, record e { lru = (key, c) ∷ rest })
    → report key d now e ≡ (
        if is_due e.interval now (lookup d c)
        then (true, record e { lru = (key, note_condition d now c) ∷ rest })
        else (false, record e { lru = (key, c) ∷ rest }))
unfolding report
report_due key d now e c rest h = rw h refl

lookup-front :
    (key : SourceKey) (c : Conditions) (rest : Map SourceKey Conditions)
    → lookup key ((key, c) ∷ rest) ≡ some c
unfolding lookup
lookup-front key c rest = rw (==_refl key) refl

report_in_front :
    (key : SourceKey) (d : Diagnostic) (now : ℕ) (e : Emitter) (c : Conditions)
    (rest : Map SourceKey Conditions)
    → (report key d now (record e { lru = (key, c) ∷ rest })).0 ≡ is_due e.interval now (lookup d c)
report_in_front key d now e c rest =
    let step =
      report_due key d now (record e { lru = (key, c) ∷ rest }) c (delete key ((key, c) ∷ rest))
        (touch_found key (record e { lru = (key, c) ∷ rest }) c (lookup-front key c rest)) in
    elim (Bool-cases (is_due e.interval now (lookup d c))) [
      | inl due ↦ rw step (rw due refl)
      | inr early ↦ rw step (rw early refl)
    ]

-- A diagnostic that was just emitted for a source is emitted again exactly when it is reported the
-- interval later, or after.
pub report-report :
    (key : SourceKey) (d : Diagnostic) (now later : ℕ) (e : Emitter)
    → (report key d now e).0 ≡ true
    → (report key d later (report key d now e).1).0 ≡ leb (now + e.interval) later
report-report key d now later e h =
    let (c, rest, front, _) = touch_front key e in
    let first = report_due key d now e c rest front in
    elim (Bool-cases (is_due e.interval now (lookup d c))) [
      | inl due ↦
          rw (first, due)
            (report_in_front key d later e (note_condition d now c) rest
              ∙ rw (lookup-note_condition d now c) refl)
      | inr early ↦ ground (arith, h, first, early)
    ]

report-IsBounded :
    (key : SourceKey) (d : Diagnostic) (now : ℕ) (e : Emitter)
    → IsBounded e
    → IsBounded (report key d now e).1
report-IsBounded key d now e h =
    let (c, rest, front, bounded) = touch_front key e in
    let first = report_due key d now e c rest front in
    elim (Bool-cases (is_due e.interval now (lookup d c))) [
      | inl due ↦ rw (first, due) (bounded h)
      | inr early ↦ rw (first, early) (bounded h)
    ]

-- However many sources are reported, no more of them are kept than the capacity.
pub report_all-IsBounded :
    (e : Emitter) (reports : List Report) → IsBounded e → IsBounded (report_all e reports)
unfolding report_all
report_all-IsBounded e [] h = h
report_all-IsBounded e (r ∷ rs) h =
    report_all-IsBounded (report r.source r.diagnostic r.now e).1 rs
      (report-IsBounded r.source r.diagnostic r.now e h)
