-- ===== src/Recovery/Failed.antt =====
-- What `integrity_check` of lib/lock.cc leaves of a failed host in an agent's lock.
use fisslock_bmv2_java.Base.{
  ℕ, zero, suc, ◌+◌, ◌≤◌, ◌<◌, ◌≡◌, ◌≢◌, ◌∙◌, ◌==◌, Bool, true, false, List, [], ◌∷◌, ◌++◌, map,
  none, some, arith, inl, inr, refl, ap, if◌then◌else◌, All, Bool-cases, Option-cases,
}
use fisslock_bmv2_java.Post.{Wqe}
use fisslock_bmv2_java.Lock.State.{InnetLock, host_num}
use fisslock_bmv2_java.Recovery.Host.{
  server_failed, erases_holder, erase_waiters, remove_host, remove_failed, waiter_report,
  holder_report, submit_lock,
}

-- Two neighbours of the failed host: the second stays.
erase_waiters-neighbours :
    (j : ℕ) (before rest : List Wqe) (a b : Wqe)
    → All (λ w. w.host ≢ j) before
    → a.host ≡ j
    → erase_waiters j (before ++ a ∷ b ∷ rest) ≡ before ++ b ∷ erase_waiters j rest
unfolding erase_waiters
erase_waiters-neighbours j [] rest a b living x = ground arith
erase_waiters-neighbours j (w ∷ []) rest a b (living, _) x = ground arith
erase_waiters-neighbours j (w ∷ v ∷ before) rest a b (living, more) x =
    ground (arith, erase_waiters-neighbours j (v ∷ before) rest a b more x)

module _ (code j : ℕ) where
  -- Among the hosts from `i` on, `n` of them, at most `j` has failed.
  abbrev FailsAlone : ℕ → ℕ → Type 0
  FailsAlone i n = (k : ℕ) → i ≤ k → k < i + n → server_failed code k ≡ (k == j)

  nothing_removed :
      (n i : ℕ) (l : InnetLock) → FailsAlone i n → j < i → remove_failed code i n l ≡ some l
  unfolding remove_failed
  nothing_removed zero i l alone past = refl
  nothing_removed (suc n) i l alone past =
      let fine : server_failed code i ≡ false =
        alone i (omega arith) (omega arith) ∙ ground arith in
      ground (
        arith,
        fine,
        nothing_removed n (i + 1) l (λ k a b. alone k (omega arith) (omega arith)) (omega arith),
      )

  removed_once :
      (n i : ℕ) (l : InnetLock)
      → FailsAlone i n
      → i ≤ j
      → j < i + n
      → remove_failed code i n l ≡ remove_host j l
  unfolding remove_failed
  removed_once zero i l alone a b = absurd (omega arith)
  removed_once (suc n) i l alone a b =
      let later : FailsAlone (i + 1) n = λ k c d. alone k (omega arith) (omega arith) in
      elim (Bool-cases (i == j)) [
        | inr e ↦
            let fine : server_failed code i ≡ false = alone i (omega arith) (omega arith) ∙ e in
            ground (arith, fine, removed_once n (i + 1) l later (ground (arith, e)) (omega arith))
        | inl e ↦
            let bad : server_failed code i ≡ true = alone i (omega arith) (omega arith) ∙ e in
            let same : i ≡ j = ground (arith, e) in
            elim (Option-cases (remove_host j l)) [
              | inl f ↦ ground (arith, bad, same, f)
              | inr (l', f) ↦
                  ground (arith, bad, same, f, nothing_removed n (i + 1) l' later (omega arith))
            ]
      ]

removed_or_undefined :
    (j : ℕ) (l : InnetLock) (kept : List Wqe)
    → erase_waiters j l.wqueue ≡ kept
    → remove_host j l
      ≡ (if erases_holder j l.holders then none else some (record l { wqueue = kept }))
unfolding remove_host
removed_or_undefined j l kept e = rw e refl

agent_submits :
    (host code : ℕ) (l : InnetLock) (kept : List Wqe) (undefined : Bool)
    → l.is_agent ≡ true
    → remove_failed code 0 host_num l
      ≡ (if undefined then none else some (record l { wqueue = kept }))
    → submit_lock host code l ≡ (
        if undefined
        then none
        else some (
          record l { wqueue = kept },
          map (holder_report host l) l.local_holders ++ map (waiter_report l) kept,
        ))
unfolding submit_lock
agent_submits host code l kept true agent e = ground (arith, agent, e)
agent_submits host code l kept false agent e = ground (arith, agent, e)

-- In a recovery from the failure of one host alone, an agent whose lock has a holder of that host does
-- something undefined. Without such a holder it reports its own holders and then all waiters that it
-- keeps; and if two waiters of the failed host are neighbours in the queue, the first two of that
-- host, it keeps and reports the second.
pub failed_host_stays :
    (host code j : ℕ) (l : InnetLock) (before rest : List Wqe) (a b : Wqe)
    → j < host_num
    → ((k : ℕ) → k < host_num → server_failed code k ≡ (k == j))
    → l.is_agent ≡ true
    → l.wqueue ≡ before ++ a ∷ b ∷ rest
    → All (λ w. w.host ≢ j) before
    → a.host ≡ j
    → b.host ≡ j
    → let kept = before ++ b ∷ erase_waiters j rest in
      submit_lock host code l ≡ (
        if erases_holder j l.holders
        then none
        else some (
          record l { wqueue = kept },
          map (holder_report host l) l.local_holders ++ map (waiter_report l) kept,
        ))
failed_host_stays host code j l before rest a b known alone agent queue living x y =
    let once = removed_once code j host_num 0 l (λ k _ c. alone k c) (omega arith) known in
    let kept = before ++ b ∷ erase_waiters j rest in
    let erased : erase_waiters j l.wqueue ≡ kept =
      ap (erase_waiters j) queue ∙ erase_waiters-neighbours j before rest a b living x in
    agent_submits host code l kept (erases_holder j l.holders) agent
      (once ∙ removed_or_undefined j l kept erased)
