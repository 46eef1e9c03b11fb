-- ===== src/Concurrency/WaitingTaskList/Moves.antt =====
-- What one operation of a call does to the nodes and to the calls that are yet to look at them.
use unify_prototype.Common.{
  ℕ, ◌+◌, ◌<◌, ◌≡◌, ◌≢◌, refl, true, false, [], ◌∷◌, arith, total, total-append,
}
use unify_prototype.Concurrency.WaitingTaskList.Defs.{
  WaitNode, Pc, incrementing, adding, passing, pushing, rechecking, announcing, walking, failing,
  opening, presetting, loading, marking, Shared, hand_over, push_node, link_node, advance, linking,
}

-- The weight of the nodes that a call is about to hand over or to put on the list.
abbrev pub carries : (WaitNode → ℕ) → Pc → ℕ
carries w (incrementing n) = w n
carries w (adding n) = w n
carries w (passing n) = w n
carries w (pushing n) = w n
carries w (walking ns) = total (λ p. w p.node) ns
carries w _ = 0

-- The calls that hand over, or are about to.
abbrev pub opens : Pc → ℕ
opens (passing n) = 1
opens announcing = 1
opens (walking ns) = 1
opens _ = 0

-- The calls that will look at the list again.
abbrev pub watches : Pc → ℕ
watches (linking a true) = 1
watches rechecking = 1
watches announcing = 1
watches _ = 0

-- Everything that was added is somewhere.
abbrev pub Kept : Shared → ℕ → (WaitNode → ℕ) → Type 0
Kept s carried w = total w s.added ≡ total w s.handed + total (λ p. w p.node) s.chain + carried

pub advance-Kept :
    (s : Shared) (p : Pc) (w : WaitNode → ℕ) (k : ℕ)
    → Kept s (k + carries w p) w
    → Kept (advance s p).0 (k + total (carries w) (advance s p).1) w
unfolding advance hand_over push_node link_node
advance-Kept s (incrementing n) w k h = omega arith
advance-Kept s (adding n) w k h = ground arith
advance-Kept s (passing n) w k h = omega (arith, total-append w s.handed (n ∷ []))
advance-Kept s (pushing n) w k h = ground arith
advance-Kept s (linking a true) w k h = ground arith
advance-Kept s (linking a false) w k h = ground arith
advance-Kept s rechecking w k h = ground arith
advance-Kept s announcing w k h = omega arith
advance-Kept s (walking []) w k h = omega arith
advance-Kept s (walking (n ∷ ns)) w k h = ground (arith, total-append w s.handed (n.node ∷ []))
advance-Kept s (failing e) w k h = omega arith
advance-Kept s opening w k h = omega arith
advance-Kept s (presetting e) w k h = ground arith
advance-Kept s (loading e) w k h = omega arith
advance-Kept s (marking e []) w k h = omega arith
advance-Kept s (marking e (n ∷ ns)) w k h = ground arith

abbrev pub Closed : Shared → ℕ → Type 0
Closed s k = s.waiting ≡ true → k ≡ 0

pub advance-Closed :
    (s : Shared) (p : Pc) (k : ℕ)
    → Closed s (k + opens p)
    → Closed (advance s p).0 (k + total opens (advance s p).1)
unfolding advance hand_over push_node link_node
advance-Closed s (incrementing n) k h = ground arith
advance-Closed s (adding n) k h = ground arith
advance-Closed s (passing n) k h = ground arith
advance-Closed s (pushing n) k h = ground arith
advance-Closed s (linking a true) k h = ground arith
advance-Closed s (linking a false) k h = ground arith
advance-Closed s rechecking k h = ground arith
advance-Closed s announcing k h = ground arith
advance-Closed s (walking []) k h = ground arith
advance-Closed s (walking (n ∷ ns)) k h = ground arith
advance-Closed s (failing e) k h = ground arith
advance-Closed s opening k h = ground arith
advance-Closed s (presetting e) k h = ground arith
advance-Closed s (loading e) k h = ground arith
advance-Closed s (marking e []) k h = ground arith
advance-Closed s (marking e (n ∷ ns)) k h = ground arith

abbrev pub Watched : Shared → ℕ → Type 0
Watched s k = s.waiting ≡ false → s.chain ≢ [] → 0 < k

pub advance-Watched :
    (s : Shared) (p : Pc) (k : ℕ)
    → Watched s (k + watches p)
    → Watched (advance s p).0 (k + total watches (advance s p).1)
unfolding advance hand_over push_node link_node
advance-Watched s (incrementing n) k h = ground arith
advance-Watched s (adding n) k h = ground arith
advance-Watched s (passing n) k h = ground arith
advance-Watched s (pushing n) k h = ground arith
advance-Watched s (linking a true) k h = ground arith
advance-Watched s (linking a false) k h = ground arith
advance-Watched s rechecking k h = ground arith
advance-Watched s announcing k h = λ e ne. absurd (ne refl)
advance-Watched s (walking []) k h = ground arith
advance-Watched s (walking (n ∷ ns)) k h = ground arith
advance-Watched s (failing e) k h = ground arith
advance-Watched s opening k h = ground arith
advance-Watched s (presetting e) k h = ground arith
advance-Watched s (loading e) k h = ground arith
advance-Watched s (marking e []) k h = ground arith
advance-Watched s (marking e (n ∷ ns)) k h = ground arith

pub advance-handed : (s : Shared) (p : Pc) → opens p ≡ 0 → (advance s p).0.handed ≡ s.handed
unfolding advance hand_over push_node link_node
advance-handed s (incrementing n) h = refl
advance-handed s (adding n) h = refl
advance-handed s (passing n) h = cc
advance-handed s (pushing n) h = refl
advance-handed s (linking a true) h = refl
advance-handed s (linking a false) h = refl
advance-handed s rechecking h = refl
advance-handed s announcing h = refl
advance-handed s (walking []) h = refl
advance-handed s (walking (n ∷ ns)) h = cc
advance-handed s (failing e) h = refl
advance-handed s opening h = refl
advance-handed s (presetting e) h = refl
advance-handed s (loading e) h = refl
advance-handed s (marking e []) h = refl
advance-handed s (marking e (n ∷ ns)) h = ground arith
