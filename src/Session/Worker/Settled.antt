-- ===== src/Session/Worker/Settled.antt =====
-- Between the passes of `SerialWorker` in openaisg/session.py its state tells whether it has the port:
-- the states of opening and releasing do not last, and a link is there in CONNECTED and DRAINING alone.
use openaisg.Common.{
  ℕ, Bool, true, false, not, ◌&&◌, ◌||◌, ◌==◌, ◌≡◌, refl, sym, ap, ◌∙◌, arith, ==_iff,
  if◌then◌else◌,
}
use openaisg.Common.Texts.{String, same_text}
use openaisg.Errors.{
  LinkState, closed, opening, port_busy, port_lost, discovering, no_devices, connecting, connected,
  draining, releasing, backoff, leased, shutdown,
}
use openaisg.Errors.Rules.{either_way}
use openaisg.Errors.Contracts.{}
use openaisg.Session.Worker.{Worker, number, same_state, set_anew, set_state}
use openaisg.Session.Worker.Opening.{}
use openaisg.Session.Worker.Calm.{Calm}

-- The states that last, with the link or without it.
abbrev pub settles : LinkState → Bool → Bool
settles connected link = link
settles draining link = link
settles opening link = false
settles discovering link = false
settles connecting link = false
settles releasing link = false
settles state link = not link

state_of_number : ℕ → LinkState
state_of_number n =
    if n == 0
    then closed
    else if n == 1
    then opening
    else if n == 2
    then port_busy
    else if n == 3
    then port_lost
    else if n == 4
    then discovering
    else if n == 5
    then no_devices
    else if n == 6
    then connecting
    else if n == 7
    then connected
    else if n == 8
    then draining
    else if n == 9
    then releasing
    else if n == 10
    then backoff
    else if n == 11
    then leased
    else shutdown

number_back : (s : LinkState) → state_of_number (number s) ≡ s
unfolding state_of_number number
number_back closed = refl
number_back opening = refl
number_back port_busy = refl
number_back port_lost = refl
number_back discovering = refl
number_back no_devices = refl
number_back connecting = refl
number_back connected = refl
number_back draining = refl
number_back releasing = refl
number_back backoff = refl
number_back leased = refl
number_back shutdown = refl

-- The test `is` is true of equal states alone.
pub same_state→eq : (s t : LinkState) → same_state s t ≡ true → s ≡ t
unfolding same_state
same_state→eq s t h =
    sym (number_back s) ∙ ap state_of_number ((==_iff (number s) (number t)).0 h) ∙ number_back t

pub waits_settled :
    (s : LinkState)
    → (same_state s port_busy || same_state s port_lost || same_state s no_devices) ≡ true
    → settles s false ≡ true
unfolding same_state number
waits_settled s h = ground (arith, h)

module _ {E : Type 0} where
  abbrev pub IsSettled : Worker E → Type 0
  IsSettled w = settles w.state w.link ≡ true

  abbrev pub HasLink : Worker E → Type 0
  HasLink w = w.link ≡ true

  abbrev pub HasNone : Worker E → Type 0
  HasNone w = w.link ≡ false

  pub state-set_state :
      (s : LinkState) (text : String) (w : Worker E) → (set_state s text w).state ≡ s
  unfolding set_state
  state-set_state s text w = go (same_state s w.state) (same_text text w.last_error) refl
    where
      go :
          (b c : Bool)
          → same_state s w.state ≡ b
          → (if b && c then w else set_anew s text w).state ≡ s
      go true true h = sym (same_state→eq s w.state h)
      go true false h = refl
      go false true h = refl
      go false false h = refl

  pub link-set_state :
      (s : LinkState) (text : String) (w : Worker E) → (set_state s text w).link ≡ w.link
  unfolding set_state
  link-set_state s text w =
      either_way (λ (v : Worker E). v.link ≡ w.link)
        (same_state s w.state && same_text text w.last_error) refl refl

  -- A state is settled that suits the link.
  pub set_state-IsSettled :
      (s : LinkState) (text : String) (w : Worker E)
      → settles s w.link ≡ true
      → IsSettled (set_state s text w)
  set_state-IsSettled s text w h =
      ap (λ l. settles (set_state s text w).state l) (link-set_state s text w)
      ∙ ap (λ t. settles t w.link) (state-set_state s text w)
      ∙ h

  -- Predicates of the state and the link do not look at what the device tells.
  pub state_link_calm : (P : LinkState → Bool → Type 0) → Calm (λ (w : Worker E). P w.state w.link)
  state_link_calm P = record {
    env = λ _ w i. i;
    indications = λ _ w i. i;
    alarm = λ _ w i. i;
    progress = λ _ _ _ w i. i;
    status = λ w i. i;
    alarms = λ _ w i. i;
    tilt = λ _ w i. i;
    identity = λ _ w i. i;
    device_data = λ _ w i. i;
    alarm_mode = λ _ w i. i;
    unsupported = λ _ w i. i;
    address = λ _ w i. i;
    error = λ _ w i. i;
  }

  pub IsSettled-calm : Calm IsSettled
  IsSettled-calm = state_link_calm (λ s l. settles s l ≡ true)

  pub HasLink-calm : Calm HasLink
  HasLink-calm = state_link_calm (λ s l. l ≡ true)
