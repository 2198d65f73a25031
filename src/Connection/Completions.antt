-- ===== src/Connection/Completions.antt =====
-- The exchange of messages takes its own two completions from the queue and no other.
use rdma_synchronization.Common.{
  ℕ, zero, suc, ◌+◌, ◌-◌, ◌<◌, ◌≤◌, ◌≡◌, refl, sym, ap, ◌∙◌, Bool, true, false, List, [], ◌∷◌, ◌++◌,
  ◌&&◌, if◌then◌else◌, arith, length, Bool-cases, inl, inr, eq→==, ne→==, length-append,
}
use rdma_synchronization.Connection.Exchange.{
  Completion, CompletionQueue, IsVerbs, Ending, done, throws, all_pass, poll_loop, passes,
  exchange_rdma_info, exchange_initial_message,
}
use mathlib.Core.List.{append-nil, append_assoc}

-- Of two ways to cut a list, the shorter front part is a front part of the longer.
split_front :
    {A : Type 0} (taken rest pre more : List A)
    → length taken ≤ length pre
    → pre ++ more ≡ taken ++ rest
    → (left : List A) × (pre ≡ taken ++ left) × (rest ≡ left ++ more)
split_front [] rest pre more le e = (pre, refl, sym e)
split_front (x ∷ taken) rest [] more le e = absurd (omega arith)
split_front (x ∷ taken) rest (y ∷ pre) more le e =
    let back : pre ++ more ≡ taken ++ rest = cc in
    let front : y ≡ x = cc in
    let (left, e1, e2) = split_front taken rest pre more (omega arith) back in
    (left, rw (front, e1) refl, e2)

all_pass-append :
    (check : Completion → Bool) (xs ys : List Completion)
    → all_pass check (xs ++ ys) ≡ (all_pass check xs && all_pass check ys)
unfolding all_pass
all_pass-append check [] ys = refl
all_pass-append check (x ∷ xs) ys = ground (arith, all_pass-append check xs ys)

module _ (C : CompletionQueue) (verbs : IsVerbs C) (check : Completion → Bool) where
  -- The loop has ended, and `more` and what came later is still in the queue.
  abbrev Took : Ending C → List Completion → Type 0
  Took e more = (q : C.State) × (new : List Completion) × (e ≡ done q) × (C.pending q ≡ more ++ new)

  poll_loop_lem :
      (fuel completions : ℕ) (q : C.State) (pre more : List Completion)
      → length pre < fuel
      → completions + length pre ≡ 2
      → all_pass check pre ≡ true
      → C.pending q ≡ pre ++ more
      → Took (poll_loop C check fuel completions q) more
  unfolding poll_loop
  poll_loop_lem zero completions q pre more lt two ok e = absurd (omega arith)
  poll_loop_lem (suc fuel) completions q [] more lt two ok e =
      rw (eq→== completions 2 (omega arith)) (q, [], refl, e ∙ sym (append-nil more))
  poll_loop_lem (suc fuel) completions q (x ∷ pre) more lt two ok e =
      let p = verbs (2 - completions) q in
      let (left, e1, e2) =
        split_front p.taken p.rest (x ∷ pre) more (omega (arith, p.few)) (sym e ∙ p.front) in
      let lengths = ap length e1 ∙ length-append p.taken left in
      let parts = sym (all_pass-append check p.taken left) ∙ ap (all_pass check) (sym e1) ∙ ok in
      let fine : all_pass check p.taken ≡ true = ground (arith, parts) in
      let (q', new, ended, behind) =
        poll_loop_lem fuel (completions + length p.taken) (C.poll_cq (2 - completions) q).1 left
          (more ++ p.fresh)
          (omega (arith, p.some_taken (omega arith) (ground (arith, ap length e)), lengths))
          (omega (arith, lengths)) (ground (arith, parts))
          (p.behind ∙ ap (λ l. l ++ p.fresh) e2 ∙ append_assoc left more p.fresh) in
      rw (ne→== completions 2 (omega arith), p.answer, fine)
        (q', p.fresh ++ new, ended, behind ∙ append_assoc more p.fresh new)

  poll_loop_throws :
      (fuel completions : ℕ) (q : C.State) (pre more : List Completion)
      → length pre < fuel
      → completions + length pre ≡ 2
      → all_pass check pre ≡ false
      → C.pending q ≡ pre ++ more
      → poll_loop C check fuel completions q ≡ throws
  unfolding poll_loop all_pass
  poll_loop_throws zero completions q pre more lt two bad e = absurd (omega arith)
  poll_loop_throws (suc fuel) completions q [] more lt two bad e = ground (arith, bad)
  poll_loop_throws (suc fuel) completions q (x ∷ pre) more lt two bad e =
      let p = verbs (2 - completions) q in
      let (left, e1, e2) =
        split_front p.taken p.rest (x ∷ pre) more (omega (arith, p.few)) (sym e ∙ p.front) in
      let lengths = ap length e1 ∙ length-append p.taken left in
      let parts = sym (all_pass-append check p.taken left) ∙ ap (all_pass check) (sym e1) ∙ bad in
      let later = λ (fine : all_pass check p.taken ≡ true).
        poll_loop_throws fuel (completions + length p.taken) (C.poll_cq (2 - completions) q).1 left
          (more ++ p.fresh)
          (omega (arith, p.some_taken (omega arith) (ground (arith, ap length e)), lengths))
          (omega (arith, lengths)) (ground (arith, parts, fine))
          (p.behind ∙ ap (λ l. l ++ p.fresh) e2 ∙ append_assoc left more p.fresh) in
      elim (Bool-cases (all_pass check p.taken)) [
        | inl fine ↦ rw (ne→== completions 2 (omega arith), p.answer, fine) (later fine)
        | inr wrong ↦ rw (ne→== completions 2 (omega arith), p.answer, wrong) refl
      ]

module _ (C : CompletionQueue) (verbs : IsVerbs C) where
  -- Once both completions are there, `exchangeInitialMesssage` ends in three rounds at most: it
  -- throws if one of the two has another status or is of another queue pair, and otherwise returns
  -- with those two taken from the queue and no other.
  pub exchange_takes_two :
      (qp_num fuel : ℕ) (q : C.State) (a b : Completion) (more : List Completion)
      → 2 < fuel
      → C.pending q ≡ a ∷ b ∷ more
      → let ending = exchange_initial_message C qp_num true fuel q in
        if passes qp_num a && passes qp_num b
        then ((q' : C.State) × (new : List Completion) × (ending ≡ done q')
            × (C.pending q' ≡ more ++ new))
        else (ending ≡ throws)
  unfolding exchange_initial_message all_pass
  exchange_takes_two qp_num fuel q a b more lt e =
      elim (Bool-cases (passes qp_num a && passes qp_num b)) [
        | inl fine ↦ rw fine (
            poll_loop_lem C verbs (passes qp_num) fuel 0 q (a ∷ b ∷ []) more (omega arith) refl
              (ground (arith, fine)) e)
        | inr bad ↦ rw bad (
            poll_loop_throws C verbs (passes qp_num) fuel 0 q (a ∷ b ∷ []) more (omega arith) refl
              (ground (arith, bad)) e)
      ]

  pub exchange_rdma_info_lem :
      (fuel : ℕ) (q : C.State) (a b : Completion) (more : List Completion)
      → 2 < fuel
      → C.pending q ≡ a ∷ b ∷ more
      → (a.success && b.success) ≡ true
      → (q' : C.State) × (new : List Completion) × (exchange_rdma_info C true fuel q ≡ done q')
        × (C.pending q' ≡ more ++ new)
  unfolding exchange_rdma_info all_pass
  exchange_rdma_info_lem fuel q a b more lt e ok =
      poll_loop_lem C verbs (λ wc. wc.success) fuel 0 q (a ∷ b ∷ []) more (omega arith) refl
        (ground (arith, ok)) e
