-- ===== src/Recovery/Registering.antt =====
-- `lock_register` of rpc/main.cc: the numbers of locks.
use fisslock_bmv2_java.Base.{
  ℕ, ◌+◌, ◌%◌, ◌^◌, ◌<◌, ◌≤◌, ◌≡◌, ◌≢◌, ◌∙◌, ◌==◌, List, [], ◌∷◌, none, some, Option-cases,
  Bool-cases, arith, inl, inr, ap, length, lookup, emplace, lookup-emplace, if◌then◌else◌,
}
use fisslock_bmv2_java.Recovery.{Registry, lock_register}

abbrev pub empty_registry : Registry
empty_registry = record { lock_tbl = []; lid_pool = 0 }

pub register_all : Registry → List ℕ → Registry
register_all r [] = r
register_all r (lock ∷ locks) = register_all (lock_register r lock).0 locks

-- The numbers given so far: each to one lock, and none above the pool.
record IsIssued (r : Registry) : Type 0 where
  pub bounded : (k lid : ℕ) → lookup k r.lock_tbl ≡ some lid → lid ≤ r.lid_pool
  pub distinct :
      (j k lid : ℕ) → lookup j r.lock_tbl ≡ some lid → lookup k r.lock_tbl ≡ some lid → j ≡ k

known : (r : Registry) (a lid : ℕ) → lookup a r.lock_tbl ≡ some lid → lock_register r a ≡ (r, lid)
unfolding lock_register
known r a lid e = ground (arith, e)

module _ (r : Registry) (a : ℕ) (fresh : lookup a r.lock_tbl ≡ none)
    (room : r.lid_pool + 1 < 2 ^ 32) where
  abbrev grown : Registry
  grown = record { lock_tbl = emplace a (r.lid_pool + 1) r.lock_tbl; lid_pool = r.lid_pool + 1 }

  unknown : lock_register r a ≡ (grown, r.lid_pool + 1)
  unfolding lock_register
  unknown =
      let small : (r.lid_pool + 1) % 2 ^ 32 ≡ r.lid_pool + 1 = omega arith in
      ground (arith, fresh, small)

  lookup-grown :
      (k : ℕ)
      → lookup k grown.lock_tbl ≡ (if a == k then some (r.lid_pool + 1) else lookup k r.lock_tbl)
  lookup-grown k = ground (arith, fresh, lookup-emplace a k (r.lid_pool + 1) r.lock_tbl)

  grown-bounded :
      IsIssued r → (k lid : ℕ) → lookup k grown.lock_tbl ≡ some lid → lid ≤ r.lid_pool + 1
  grown-bounded v k lid e = elim (Bool-cases (a == k)) [
    | inl b ↦ ground (arith, b, lookup-grown k)
    | inr b ↦
        let old : lookup k r.lock_tbl ≡ some lid = ground (arith, b, lookup-grown k) in
        omega (arith, v.bounded k lid old)
  ]

  grown-distinct :
      IsIssued r
      → (j k lid : ℕ) → lookup j grown.lock_tbl ≡ some lid
      → lookup k grown.lock_tbl ≡ some lid
      → j ≡ k
  grown-distinct v j k lid e f = elim (Bool-cases (a == j)) [
    | inl b ↦ elim (Bool-cases (a == k)) [
      | inl b' ↦ ground (arith, b, b')
      | inr b' ↦
          let old : lookup k r.lock_tbl ≡ some lid = ground (arith, b', lookup-grown k) in
          absurd (ground (arith, b, lookup-grown j, v.bounded k lid old))
    ]
    | inr b ↦
        let old : lookup j r.lock_tbl ≡ some lid = ground (arith, b, lookup-grown j) in
        elim (Bool-cases (a == k)) [
          | inl b' ↦ absurd (ground (arith, b', lookup-grown k, v.bounded j lid old))
          | inr b' ↦ v.distinct j k lid old (ground (arith, b', lookup-grown k))
        ]
  ]

-- One registration: what it gives is in the table, and what was there stays.
record IsRegistered (r : Registry) (a : ℕ) : Type 0 where
  pub issued : IsIssued (lock_register r a).0
  pub found : lookup a (lock_register r a).0.lock_tbl ≡ some (lock_register r a).1
  pub kept :
      (k lid : ℕ)
      → lookup k r.lock_tbl ≡ some lid
      → lookup k (lock_register r a).0.lock_tbl ≡ some lid
  pub pool : (lock_register r a).0.lid_pool ≤ r.lid_pool + 1

register : (r : Registry) (a : ℕ) → IsIssued r → r.lid_pool + 1 < 2 ^ 32 → IsRegistered r a
register r a v room = elim (Option-cases (lookup a r.lock_tbl)) [
  | inl n ↦
      let e = unknown r a n room in
      record {
        issued = rw e (record {
          bounded = grown-bounded r a n room v;
          distinct = grown-distinct r a n room v;
        });
        found = rw e (ground (arith, lookup-grown r a n room a));
        kept = λ k lid f. rw e (ground (arith, lookup-grown r a n room k, n, f));
        pool = rw e (omega arith);
      }
  | inr (lid, f) ↦
      let e = known r a lid f in
      record { issued = rw e v; found = rw e f; kept = λ k i g. rw e g; pool = rw e (omega arith) }
]

register_all-IsIssued :
    (r : Registry) (locks : List ℕ)
    → IsIssued r
    → r.lid_pool + length locks + 1 < 2 ^ 32
    → IsIssued (register_all r locks)
      × ((register_all r locks).lid_pool ≤ r.lid_pool + length locks)
unfolding register_all
register_all-IsIssued r [] v room = (v, omega arith)
register_all-IsIssued r (a ∷ locks) v room =
    let g = register r a v (omega arith) in
    let r' = (lock_register r a).0 in
    let (v', n) = register_all-IsIssued r' locks g.issued (omega (arith, g.pool)) in
    (v', omega (arith, n, g.pool))

empty-IsIssued : IsIssued empty_registry
unfolding lookup
empty-IsIssued = record { bounded = λ k lid e. cc; distinct = λ j k lid e f. cc }

-- However many locks were registered before, below 2^32, two locks get different numbers, and a lock
-- that is registered again gets the number that it has and changes nothing.
pub lock_register-distinct :
    (locks : List ℕ) (a b : ℕ)
    → length locks + 3 < 2 ^ 32
    → a ≢ b
    → let first = lock_register (register_all empty_registry locks) a in
      let second = lock_register first.0 b in
      (first.1 ≢ second.1) × (lock_register second.0 a ≡ (second.0, first.1))
lock_register-distinct locks a b room ne =
    let r = register_all empty_registry locks in
    let (v, n) = register_all-IsIssued empty_registry locks empty-IsIssued (omega arith) in
    let g = register r a v (omega (arith, n)) in
    let r' = (lock_register r a).0 in
    let g' = register r' b g.issued (omega (arith, n, g.pool)) in
    let here = g'.kept a (lock_register r a).1 g.found in
    (
      λ e. ne (g'.issued.distinct a b (lock_register r' b).1 (here ∙ ap some e) g'.found),
      known (lock_register r' b).0 a (lock_register r a).1 here,
    )
