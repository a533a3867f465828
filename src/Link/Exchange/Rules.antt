-- ===== src/Link/Exchange/Rules.antt =====
-- Rules for the two loops of `AisgLink.exchange` in openaisg/link.py: an invariant that one frame,
-- or one pass, keeps holds to the end.
use openaisg.Common.{ℕ, List, [], ◌∷◌, All, Bytes}
use openaisg.Hdlc.Framing.{Frame}
use openaisg.Link.Exchange.{
  Call, Progress, Handled, goes_on, returned, reset_by, Why, handle, handle_all, Round, Outcome,
  waiting, Turn, ends, again, turn, follow, loop,
}

-- What handling some frames comes to.
abbrev pub Handles :
    (Progress → Type 0) → (Bytes → Progress → Type 0) → (Why → Progress → Type 0) → Handled → Type 0
Handles P R S (goes_on s) = P s
Handles P R S (returned payload s) = R payload s
Handles P R S (reset_by why s) = S why s

-- What a pass comes to.
abbrev pub Turns : (Progress → Type 0) → (Outcome → Progress → Type 0) → Turn → Type 0
Turns P Q (ends outcome s) = Q outcome s
Turns P Q (again s) = P s

module _ (call : Call) (A : Frame × ℕ → Type 0) (P : Progress → Type 0)
    (R : Bytes → Progress → Type 0) (S : Why → Progress → Type 0) where
  module _
      (step : (f : Frame) (clock : ℕ) (s : Progress)
        → A (f, clock)
        → P s
        → Handles P R S (handle call f clock s)) where
    pub handle_all_rule :
        (fs : List (Frame × ℕ)) (s : Progress)
        → All A fs
        → P s
        → Handles P R S (handle_all call fs s)
    unfolding handle_all
    handle_all_rule [] s a h = h
    handle_all_rule ((f, clock) ∷ fs) s a h =
        go (handle call f clock s) (step f clock s a.0 h) (λ s'. handle_all_rule fs s' a.1)
      where
        go :
            (x : Handled)
            → Handles P R S x
            → ((s' : Progress) → P s' → Handles P R S (handle_all call fs s'))
            → Handles P R S (elim x [
              | goes_on s' ↦ handle_all call fs s'
              | returned payload s' ↦ returned payload s'
              | reset_by why s' ↦ reset_by why s'
            ])
        go (goes_on s') k next = next s' k
        go (returned payload s') k next = k
        go (reset_by why s') k next = k

module _ (call : Call) (B : Round → Type 0) (P : Progress → Type 0)
    (Q : Outcome → Progress → Type 0) where
  module _ (base : (s : Progress) → P s → Q waiting s)
      (step : (r : Round) (s : Progress) → B r → P s → Turns P Q (turn call r s)) where
    pub loop_rule :
        (rounds : List Round) (s : Progress)
        → All B rounds
        → P s
        → Q (loop call s rounds).0 (loop call s rounds).1
    unfolding loop
    loop_rule [] s b h = base s h
    loop_rule (r ∷ rs) s b h = go (turn call r s) (step r s b.0 h) (λ s'. loop_rule rs s' b.1)
      where
        go :
            (t : Turn)
            → Turns P Q t
            → ((s' : Progress) → P s' → Q (loop call s' rs).0 (loop call s' rs).1)
            → Q (follow t (λ s'. loop call s' rs)).0 (follow t (λ s'. loop call s' rs)).1
        go (ends outcome s') k next = k
        go (again s') k next = next s' k
