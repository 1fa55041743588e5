-- ===== src/Lock/Table/Sharing.antt =====
-- When the calls by key and the packets by number meet in one lock structure (lib/lock.cc).
use fisslock_bmv2_java.Base.{
  ℕ, zero, suc, ◌≡◌, ◌≢◌, arith, refl, List, [], ◌∷◌, ◌++◌, none, some, Option, length, get_or,
  get_elem?, set, lookup, lookup-emplace, ap, ◌∙◌,
}
use fisslock_bmv2_java.Post.{Packet, swap32}
use fisslock_bmv2_java.Lock.State.{InnetLock, new_lock}
use fisslock_bmv2_java.Lock.Packets.{Preprocessor, lock_packet_process}
use fisslock_bmv2_java.Lock.Table.{
  LockTable, lock_id_to_desc, lock_key_to_desc, lock_init, add_lock, process_at,
  lock_packet_dispatch,
}

get_elem?-append_one {ℓ} :
    {A : Type ℓ} (xs : List A) (a : A) → get_elem? (xs ++ a ∷ []) (length xs) ≡ some a
get_elem?-append_one [] a = refl
get_elem?-append_one (x ∷ xs) a = get_elem?-append_one xs a

get_elem?-set_self {ℓ} :
    {A : Type ℓ} (xs : List A) (i : ℕ) (v : A) {a : A}
    → get_elem? xs i ≡ some a
    → get_elem? (set xs i v) i ≡ some v
get_elem?-set_self [] i v e = cc
get_elem?-set_self (x ∷ xs) zero v e = refl
get_elem?-set_self (x ∷ xs) (suc i) v e = get_elem?-set_self xs i v e

get_elem?-set_ne {ℓ} :
    {A : Type ℓ} (xs : List A) (i j : ℕ) (a : A) → i ≢ j → get_elem? (set xs i a) j ≡ get_elem? xs j
get_elem?-set_ne [] i j a ne = refl
get_elem?-set_ne (x ∷ xs) zero zero a ne = absurd (ne refl)
get_elem?-set_ne (x ∷ xs) zero (suc j) a ne = refl
get_elem?-set_ne (x ∷ xs) (suc i) zero a ne = refl
get_elem?-set_ne (x ∷ xs) (suc i) (suc j) a ne = get_elem?-set_ne xs i j a (λ e. ne (ap suc e))

lock_init-fresh :
    (t : LockTable) (lkey lid : ℕ)
    → lookup lkey t.lock_tbl ≡ none
    → lock_init t lkey lid ≡ (add_lock t lkey lid, lid)
unfolding lock_init
lock_init-fresh t lkey lid e = rw (e, lock_init)

lock_init-known :
    (t : LockTable) (lkey lid ptr : ℕ)
    → lookup lkey t.lock_tbl ≡ some ptr
    → lock_init t lkey lid ≡ (t, 0)
unfolding lock_init
lock_init-known t lkey lid ptr e = rw (e, lock_init)

lookup-add_lock :
    (t : LockTable) (lkey lid : ℕ)
    → lookup lkey t.lock_tbl ≡ none
    → lookup lkey (add_lock t lkey lid).lock_tbl ≡ some (length t.store)
unfolding add_lock
lookup-add_lock t lkey lid e = ground (arith, lookup-emplace lkey lkey (length t.store) t.lock_tbl)

lookup-add_lock_id :
    (t : LockTable) (lkey lid : ℕ)
    → lookup lid (add_lock t lkey lid).lock_id_map
      ≡ some (get_or (length t.store) (lookup lid t.lock_id_map))
unfolding add_lock
lookup-add_lock_id t lkey lid =
    ground (arith, lookup-emplace lid lid (length t.store) t.lock_id_map)

lookup-add_lock_ne :
    (t : LockTable) (lkey lid k : ℕ)
    → k ≢ lkey
    → lookup k (add_lock t lkey lid).lock_tbl ≡ lookup k t.lock_tbl
unfolding add_lock
lookup-add_lock_ne t lkey lid k ne =
    ground (arith, lookup-emplace lkey k (length t.store) t.lock_tbl)

store-add_lock :
    (t : LockTable) (lkey lid : ℕ)
    → get_elem? (add_lock t lkey lid).store (length t.store) ≡ some (new_lock lkey lid)
unfolding add_lock
store-add_lock t lkey lid = get_elem?-append_one t.store (new_lock lkey lid)

lock_id_to_desc-known :
    (t : LockTable) (lid ptr : ℕ)
    → lookup lid t.lock_id_map ≡ some ptr
    → lock_id_to_desc t lid ≡ (t, ptr)
unfolding lock_id_to_desc
lock_id_to_desc-known t lid ptr e = rw (e, lock_id_to_desc)

-- The first `lock_init` of a key whose number is new to the host: the key and the number lead to one
-- fresh structure with both, another key leads where it led, and a second call changes
-- nothing and returns 0.
pub lock_init_shares :
    (t : LockTable) (lkey lid k : ℕ)
    → k ≢ lkey
    → lookup lkey t.lock_tbl ≡ none
    → lookup lid t.lock_id_map ≡ none
    → let t' = (lock_init t lkey lid).0 in
      (lock_key_to_desc t' lkey ≡ some (length t.store))
      × (lock_id_to_desc t' lid ≡ (t', length t.store))
      × (get_elem? t'.store (length t.store) ≡ some (new_lock lkey lid))
      × (lock_key_to_desc t' k ≡ lock_key_to_desc t k)
      × (lock_init t' lkey lid ≡ (t', 0))
unfolding lock_key_to_desc
lock_init_shares t lkey lid k ne new_key new_id =
    let by_key = lookup-add_lock t lkey lid new_key in
    let by_id : lookup lid (add_lock t lkey lid).lock_id_map ≡ some (length t.store) =
      rw new_id at (lookup-add_lock_id t lkey lid) in
    rw (lock_init-fresh t lkey lid new_key) (
      by_key,
      lock_id_to_desc-known (add_lock t lkey lid) lid (length t.store) by_id,
      store-add_lock t lkey lid,
      lookup-add_lock_ne t lkey lid k ne,
      lock_init-known (add_lock t lkey lid) lkey lid (length t.store) by_key,
    )

get_elem?-append_left {ℓ} :
    {A : Type ℓ} (xs ys : List A) (i : ℕ) {a : A}
    → get_elem? xs i ≡ some a
    → get_elem? (xs ++ ys) i ≡ some a
get_elem?-append_left [] ys i e = cc
get_elem?-append_left (x ∷ xs) ys zero e = e
get_elem?-append_left (x ∷ xs) ys (suc i) e = get_elem?-append_left xs ys i e

get_elem?-ne-length {ℓ} :
    {A : Type ℓ} (xs : List A) (i : ℕ) {a : A} → get_elem? xs i ≡ some a → i ≢ length xs
get_elem?-ne-length [] i e n = cc
get_elem?-ne-length (x ∷ xs) zero e n = omega arith
get_elem?-ne-length (x ∷ xs) (suc i) e n = get_elem?-ne-length xs i e (omega arith)

store-add_lock_old :
    (t : LockTable) (lkey lid i : ℕ) {l : InnetLock}
    → get_elem? t.store i ≡ some l
    → get_elem? (add_lock t lkey lid).store i ≡ some l
unfolding add_lock
store-add_lock_old t lkey lid i e = get_elem?-append_left t.store _ i e

module _ (host : ℕ) (pre : Option Preprocessor) (p : Packet) where
  process_at-found :
      (t : LockTable) (ptr : ℕ) (l : InnetLock)
      → get_elem? t.store ptr ≡ some l
      → let o = lock_packet_process host pre l p in
        process_at host pre t ptr p ≡ some (record t { store = set t.store ptr o.lock }, o)
  unfolding process_at
  process_at-found t ptr l e = rw (e, process_at)

  -- If a packet for a number came before the key's `lock_init`, the two stay apart: packets for the
  -- number go on to the structure that the first one made, and leave the one that the key leads to
  -- untouched, so no grant reaches the callers that name the key.
  pub lock_init_after_packet :
      (t : LockTable) (lkey lid old : ℕ) (l : InnetLock)
      → lookup lkey t.lock_tbl ≡ none
      → lookup lid t.lock_id_map ≡ some old
      → get_elem? t.store old ≡ some l
      → swap32 p.lock_id ≡ lid
      → let t' = (lock_init t lkey lid).0 in
        let o = lock_packet_process host pre l p in
        (u : LockTable) × (lock_packet_dispatch host pre t' p ≡ some (u, o))
        × (lock_key_to_desc u lkey ≡ some (length t.store))
        × (get_elem? u.store (length t.store) ≡ some (new_lock lkey lid))
        × (get_elem? u.store old ≡ some o.lock)
  unfolding lock_packet_dispatch lock_key_to_desc
  lock_init_after_packet t lkey lid old l new_key known at_old same =
      let t' = add_lock t lkey lid in
      let o = lock_packet_process host pre l p in
      let by_id : lookup lid t'.lock_id_map ≡ some old =
        rw known at (lookup-add_lock_id t lkey lid) in
      (
        record t' { store = set t'.store old o.lock },
        rw (lock_init-fresh t lkey lid new_key, same, lock_id_to_desc-known t' lid old by_id)
            (process_at-found t' old l (store-add_lock_old t lkey lid old at_old)),
        lookup-add_lock t lkey lid new_key,
        get_elem?-set_ne t'.store old (length t.store) o.lock
              (get_elem?-ne-length t.store old at_old)
            ∙ store-add_lock t lkey lid,
        get_elem?-set_self t'.store old o.lock (store-add_lock_old t lkey lid old at_old),
      )
