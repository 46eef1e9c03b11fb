-- ===== src/Concurrency/WaitingTaskList/Cache/Walking.antt =====
-- `announce` hands over what was added, and reads no node that it deleted.
use unify_prototype.Common.{
  All, ℕ, suc, ◌+◌, ◌<◌, arith, ◌>>=◌, ◌≡◌, refl, ◌∙◌, ap, Bool, true, false, List, [], ◌∷◌, Option,
  none, some, length,
}
use mathlib.Core.List.{reverse, reverse_aux}
use unify_prototype.Concurrency.WaitingTaskList.Defs.{WaitNode}
use unify_prototype.Concurrency.WaitingTaskList.Cache.Defs.{
  Address, in_cache, on_heap, same_address, LinkedNode, Nodes, create_node, Round,
}
use unify_prototype.Concurrency.WaitingTaskList.Cache.Links.{
  Linked, set_next_node, add_node, add_all_nodes, links_itself, is_deleted, delete_unless,
  walk_nodes,
}
use unify_prototype.Concurrency.WaitingTaskList.Cache.Keeping.{
  AllDifferent, Taken, write-same, write-other, create_node-other, create_node-Taken,
  create_node-Taken_new, create_node-other_address, create_node-content,
}
use unify_prototype.Concurrency.WaitingTask.Defs.{uint_mod}
use unify_prototype.Concurrency.WaitingTaskList.Cache.Growing.{
  create_node-last_assigned, Round-last_assigned,
}

-- The nodes at the addresses are linked in this order and hold these tasks.
abbrev Trail : (Address → LinkedNode) → Option Address → List Address → List WaitNode → Type 0
Trail memory v [] [] = v ≡ none
Trail memory v [] (n ∷ ns) = ⊥
Trail memory v (a ∷ rest) [] = ⊥
Trail memory v (a ∷ rest) (n ∷ ns) =
    (v ≡ some a) × ((memory a).content ≡ n) × Trail memory (memory a).next rest ns

All-map :
    {P Q : Address → Type 0} (rest : List Address)
    → ((a : Address) → P a → Q a)
    → All P rest
    → All Q rest
All-map [] f h = tt
All-map (a ∷ rest) f (p, h) = (f a p, All-map rest f h)

Trail-other :
    (m k : Address → LinkedNode) (v : Option Address) (as_ : List Address) (ns : List WaitNode)
    → All (λ a. k a ≡ m a) as_
    → Trail m v as_ ns
    → Trail k v as_ ns
Trail-other m k v [] [] h t = t
Trail-other m k v [] (n ∷ ns) h t = elim t [ ]
Trail-other m k v (a ∷ rest) [] h t = elim t [ ]
Trail-other m k v (a ∷ rest) (n ∷ ns) (e, h) (p, q, t) =
    (p, ap (λ x. x.content) e ∙ q, rw e (Trail-other m k (m a).next rest ns h t))

Trail-not_itself :
    (m : Address → LinkedNode) (a : Address) (v : Option Address) (rest : List Address)
    (ns : List WaitNode)
    → All (λ b. same_address a b ≡ false) rest
    → Trail m v rest ns
    → links_itself a v ≡ false
Trail-not_itself m a v [] [] h t = ap (links_itself a) t
Trail-not_itself m a v [] (n ∷ ns) h t = elim t [ ]
Trail-not_itself m a v (b ∷ rest) [] h t = elim t [ ]
Trail-not_itself m a v (b ∷ rest) (n ∷ ns) (e, h) (p, q, t) = ap (links_itself a) p ∙ e

delete_unless-other :
    (b : Bool) (a c : Address) (deleted : List Address)
    → same_address a c ≡ false
    → is_deleted deleted c ≡ false
    → is_deleted (delete_unless b a deleted) c ≡ false
delete_unless-other true a c deleted e f = f
delete_unless-other false a c deleted e f = rw e f

delete_unless-All :
    (b : Bool) (a : Address) (deleted rest : List Address)
    → All (λ c. same_address a c ≡ false) rest
    → All (λ c. is_deleted deleted c ≡ false) rest
    → All (λ c. is_deleted (delete_unless b a deleted) c ≡ false) rest
delete_unless-All b a deleted [] h k = tt
delete_unless-All b a deleted (c ∷ rest) (e, h) (f, k) =
    (delete_unless-other b a c deleted e f, delete_unless-All b a deleted rest h k)

walk_nodes-step :
    (fuel : ℕ) (m : Address → LinkedNode) (deleted : List Address) (a : Address)
    → is_deleted deleted a ≡ false
    → links_itself a (m a).next ≡ false
    → walk_nodes (suc fuel) m deleted (some a) ≡ (
        walk_nodes fuel m (delete_unless (m a).from_cache a deleted) (m a).next >>= λ rest.
        some ((m a).content ∷ rest))
unfolding walk_nodes
walk_nodes-step fuel m deleted a e f = ground arith

walk_nodes-Trail :
    (m : Address → LinkedNode) (deleted : List Address) (v : Option Address) (rest : List Address)
    (ns : List WaitNode)
    → AllDifferent rest
    → All (λ c. is_deleted deleted c ≡ false) rest
    → Trail m v rest ns
    → walk_nodes (suc (length ns)) m deleted v ≡ some ns
unfolding walk_nodes
walk_nodes-Trail m deleted v [] [] h k t = rw t refl
walk_nodes-Trail m deleted v [] (n ∷ ns) h k t = elim t [ ]
walk_nodes-Trail m deleted v (a ∷ rest) [] h k t = elim t [ ]
walk_nodes-Trail m deleted v (a ∷ rest) (n ∷ ns) (h, hs) (e, k) (p, q, t) =
    let later = delete_unless (m a).from_cache a deleted in
    let tail =
      walk_nodes-Trail m later (m a).next rest ns hs
        (delete_unless-All (m a).from_cache a deleted rest h k) t in
    ap (walk_nodes (suc (suc (length ns))) m deleted) p
    ∙ walk_nodes-step (suc (length ns)) m deleted a e (Trail-not_itself m a (m a).next rest ns h t)
    ∙ ap (λ o. o >>= λ found. some ((m a).content ∷ found)) tail
    ∙ ap (λ c. some (c ∷ ns)) q

same_address_sym : (a b : Address) → same_address a b ≡ false → same_address b a ≡ false
same_address_sym (in_cache i) (in_cache j) e = ground arith
same_address_sym (in_cache i) (on_heap j) e = refl
same_address_sym (on_heap i) (in_cache j) e = refl
same_address_sym (on_heap i) (on_heap j) e = ground arith

-- The state of the list between two calls, with the tasks that wait.
abbrev Holds : Linked → List WaitNode → Type 0
Holds l ks =
    (rest : List Address) × AllDifferent rest
    × All (Taken l.nodes.last_assigned l.nodes.allocations) rest
    × Trail l.nodes.memory l.head rest ks

add_node-last_assigned :
    (l : Linked) (n : WaitNode)
    → l.nodes.last_assigned + 1 < uint_mod
    → (add_node l n).nodes.last_assigned ≡ l.nodes.last_assigned + 1
unfolding add_node
add_node-last_assigned l n lt = create_node-last_assigned l.nodes n lt

module _ (l : Linked) (n : WaitNode) where
  abbrev added : Address
  added = (create_node l.nodes n).1

  abbrev memory_after : Address → LinkedNode
  memory_after = set_next_node (create_node l.nodes n).0.memory added l.head

  memory_after-added :
      memory_after added ≡ record ((create_node l.nodes n).0.memory added) { next = l.head }
  unfolding set_next_node
  memory_after-added =
      write-same (create_node l.nodes n).0.memory added
        (record ((create_node l.nodes n).0.memory added) { next = l.head })

  memory_after-other :
      (a : Address)
      → Taken l.nodes.last_assigned l.nodes.allocations a
      → memory_after a ≡ l.nodes.memory a
  unfolding set_next_node
  memory_after-other a t =
      write-other (create_node l.nodes n).0.memory added a
        (record ((create_node l.nodes n).0.memory added) { next = l.head })
        (same_address_sym a added (create_node-other_address l.nodes n a t))
      ∙ create_node-other l.nodes n a t

  add_node-Holds :
      (ks : List WaitNode)
      → l.nodes.last_assigned + 1 < uint_mod
      → Holds l ks
      → Holds (add_node l n) (n ∷ ks)
  unfolding add_node
  add_node-Holds ks lt (rest, d, t, r) =
      let apart =
        All-map rest (λ a u. same_address_sym a added (create_node-other_address l.nodes n a u))
          t in
      let memory_kept = All-map rest memory_after-other t in
      (
        added ∷ rest,
        (apart, d),
        (
          create_node-Taken_new l.nodes n lt,
          All-map rest (λ a u. create_node-Taken l.nodes n a lt u) t,
        ),
        (
          refl,
          ap (λ x. x.content) memory_after-added ∙ create_node-content l.nodes n,
          rw memory_after-added
              (Trail-other l.nodes.memory memory_after l.head rest ks memory_kept r),
        ),
      )

add_all_nodes-Holds :
    (l : Linked) (ns ks : List WaitNode)
    → l.nodes.last_assigned + length ns < uint_mod
    → Holds l ks
    → Holds (add_all_nodes l ns) (reverse_aux ns ks)
unfolding add_all_nodes
add_all_nodes-Holds l [] ks lt h = h
add_all_nodes-Holds l (n ∷ ns) ks lt h =
    let one = add_node-last_assigned l n (omega arith) in
    add_all_nodes-Holds (add_node l n) ns (n ∷ ks) (omega arith)
      (add_node-Holds l n ks (omega arith) h)

none_deleted : (rest : List Address) → All (λ c. is_deleted [] c ≡ false) rest
none_deleted [] = tt
none_deleted (a ∷ rest) = (refl, none_deleted rest)

Holds-walk :
    (l : Linked) (ks : List WaitNode)
    → Holds l ks
    → walk_nodes (suc (length ks)) l.nodes.memory [] l.head ≡ some ks
Holds-walk l ks (rest, d, t, r) =
    walk_nodes-Trail l.nodes.memory [] l.head rest ks d (none_deleted rest) r

-- When fewer than 2^32 tasks were added to an empty list in one round, the loop of `announce` ends
-- after one turn for each of them, without a wait and without a read of a node that it deleted, and
-- finds all of them, the newest first.
pub walk_nodes-add_all_nodes :
    {s : Nodes}
    → Round s
    → (ns : List WaitNode) → length ns < uint_mod
    → let l = add_all_nodes (record { nodes = s; head = none }) ns in
      walk_nodes (suc (length (reverse ns))) l.nodes.memory [] l.head ≡ some (reverse ns)
walk_nodes-add_all_nodes {s} r ns lt =
    let start : Linked = record { nodes = s; head = none } in
    let first = Round-last_assigned r in
    Holds-walk (add_all_nodes start ns) (reverse ns)
      (add_all_nodes-Holds start ns [] (omega arith) ([], tt, tt, refl))
