-- ===== src/Concurrency/AddOnlyContainer/Invariant.antt =====
-- Where the nodes are, whatever calls are in progress.
use unify_prototype.Common.{
  sum_below, is, sum_below-is, ℕ, ◌+◌, ◌≡◌, refl, inl, inr, Bool-cases, List, [], ◌∷◌, ◌++◌, Option,
  arith, length, total, total-append, total-around, get_elem?-last, All, All-append, All-split, ◌∙◌,
  sym, ap,
}
use unify_prototype.Concurrency.AddOnlyContainer.Defs.{
  Pc, loading, making, exchanging, linking, same, Shared, try_exchange, advance,
}
use unify_prototype.Concurrency.AddOnlyContainer.System.{System, call, turn, Reach, at_start, later}
use unify_prototype.Concurrency.AddOnlyContainer.Nodes.{
  same-≡, Trail, Trail-append, Trail-set_next, get_elem?-set_next, length-set_next, length-snoc,
  Linked, pends, Linked-append, Linked-set_next,
}

module _ {A : Type 0} where
  -- Every node made is either on the trail from `front_` or in the hands of one call.
  pub record Inv (s : Shared A) (cs : List (Pc A)) : Type 0 where
    pub trail : List ℕ
    pub is_trail : Trail s.nodes s.front trail
    pub kept : (w : ℕ → ℕ) → total w trail + total (pends w) cs ≡ sum_below w (length s.nodes)
    pub given : (w : ℕ → ℕ) → total w s.returned ≡ total w trail
    linked : All (Linked s.nodes) cs

  try_exchange-Inv :
      (s : Shared A) (n : ℕ) (e : Option ℕ) (cs : List (Pc A))
      → Inv s (exchanging n e ∷ cs)
      → Inv (try_exchange s n e).0 ((try_exchange s n e).1 ++ cs)
  unfolding try_exchange
  try_exchange-Inv s n e cs v = elim (Bool-cases (same s.front e)) [
    | inl q ↦ rw q (record {
      trail = n ∷ v.trail;
      is_trail = (
        refl,
        (
          record { next = e; object = v.linked.0.0 },
          v.linked.0.1,
          rw (sym (same-≡ s.front e q)) v.is_trail,
        ),
      );
      kept = λ w. omega (arith, v.kept w);
      given = λ w. omega (arith, v.given w, total-append w s.returned (n ∷ []));
      linked = v.linked.1;
    })
    | inr q ↦ rw q (record {
      trail = v.trail;
      is_trail = v.is_trail;
      kept = v.kept;
      given = v.given;
      linked = ((record { next = e; object = v.linked.0.0 }, v.linked.0.1), v.linked.1);
    })
  ]

  -- A node in the hands of a call is nowhere else.
  alone :
      (s : Shared A) (n : ℕ) (e : Option ℕ) (cs : List (Pc A)) (v : Inv s (linking n e ∷ cs))
      → (total (is n) v.trail ≡ 0) × (total (pends (is n)) cs ≡ 0)
  alone s n e cs v =
      let h = v.kept (is n) in
      let b = sum_below-is n (length s.nodes) in (ground arith, ground arith)

  advance-Inv :
      (s : Shared A) (p : Pc A) (cs : List (Pc A))
      → Inv s (p ∷ cs)
      → Inv (advance s p).0 ((advance s p).1 ++ cs)
  unfolding advance
  advance-Inv s (loading a) cs v = record {
    trail = v.trail;
    is_trail = v.is_trail;
    kept = v.kept;
    given = v.given;
    linked = v.linked;
  }
  advance-Inv s (making e a) cs v = record {
    trail = v.trail;
    is_trail = Trail-append s.nodes _ s.front v.trail v.is_trail;
    kept =
        λ w. rw (length-snoc s.nodes (record { next = e; object = a })) (omega (arith, v.kept w));
    given = v.given;
    linked = ((a, get_elem?-last s.nodes _), Linked-append s.nodes _ cs v.linked.1);
  }
  advance-Inv s (exchanging n e) cs v = try_exchange-Inv s n e cs v
  advance-Inv s (linking n e) cs v =
      let (off, free) = alone s n e cs v in
      record {
        trail = v.trail;
        is_trail = Trail-set_next s.nodes n e s.front v.trail off v.is_trail;
        kept = λ w. v.kept w ∙ ap (sum_below w) (sym (length-set_next s.nodes n e));
        given = v.given;
        linked = (
          (v.linked.0.0.object, get_elem?-set_next s.nodes n e v.linked.0.1),
          Linked-set_next s.nodes n e cs free v.linked.1,
        );
      }

  -- A call may stand anywhere.
  Inv-front :
      (s : Shared A) (xs : List (Pc A)) (p : Pc A) (ys : List (Pc A))
      → Inv s (xs ++ p ∷ ys)
      → Inv s (p ∷ (xs ++ ys))
  Inv-front s xs p ys v =
      let (hx, hy) = All-split (Linked s.nodes) xs (p ∷ ys) v.linked in
      record {
        trail = v.trail;
        is_trail = v.is_trail;
        kept = λ w.
            omega
              (arith, v.kept w, total-append (pends w) xs (p ∷ ys), total-append (pends w) xs ys);
        given = v.given;
        linked = (hy.0, All-append (Linked s.nodes) xs ys hx hy.1);
      }

  Inv-back :
      (s : Shared A) (ms xs ys : List (Pc A)) → Inv s (ms ++ (xs ++ ys)) → Inv s (xs ++ ms ++ ys)
  Inv-back s ms xs ys v =
      let (hm, rest) = All-split (Linked s.nodes) ms (xs ++ ys) v.linked in
      let (hx, hy) = All-split (Linked s.nodes) xs ys rest in
      record {
        trail = v.trail;
        is_trail = v.is_trail;
        kept = λ w. omega (
          arith,
          v.kept w,
          total-around (pends w) xs ms ys,
          total-append (pends w) ms (xs ++ ys),
          total-append (pends w) xs ys,
        );
        given = v.given;
        linked =
            All-append (Linked s.nodes) (xs ++ ms) ys (All-append (Linked s.nodes) xs ms hx hm) hy;
      }

  turn-Inv :
      (s : Shared A) (xs : List (Pc A)) (p : Pc A) (ys : List (Pc A))
      → Inv s (xs ++ p ∷ ys)
      → Inv (advance s p).0 (xs ++ (advance s p).1 ++ ys)
  turn-Inv s xs p ys v =
      Inv-back (advance s p).0 (advance s p).1 xs ys
        (advance-Inv s p (xs ++ ys) (Inv-front s xs p ys v))

  pub Reach-Inv : {s : System A} → Reach s → Inv s.shared s.calls
  Reach-Inv at_start = record {
    trail = [];
    is_trail = refl;
    kept = λ w. refl;
    given = λ w. refl;
    linked = tt;
  }
  Reach-Inv (later r (call a)) =
      let v = Reach-Inv r in
      record {
        trail = v.trail;
        is_trail = v.is_trail;
        kept = λ w. omega (arith, v.kept w);
        given = v.given;
        linked = (tt, v.linked);
      }
  Reach-Inv (later {s} r (turn xs p ys e)) = turn-Inv s.shared xs p ys (rw (sym e) (Reach-Inv r))
