-- ===== src/Boot/Interrupted.antt =====
-- The boot with interrupts that arrive in between: the timer and the keyboard, from the action that
-- enables them on.
use mathlib.Core.Path.{subst}
use llm_os_rust.Base.{
  ℕ, ◌≡◌, ap, sym, ◌∙◌, Bool, true, false, List, [], ◌∷◌, ◌++◌, append_assoc, append-nil,
}
use llm_os_rust.Text.{Text}
use llm_os_rust.Vga.{write_string}
use llm_os_rust.Vga.Append.{write_string-append, write_string-nil}
use llm_os_rust.Interrupts.{
  Decoder, Machine, Interrupt, tick, key, on_timer, on_keyboard, decode, key_text,
}
use llm_os_rust.Interrupts.Handling.{vectors, typed, on_timer_lem, on_keyboard_lem}
use llm_os_rust.Boot.{Action, print, enable_interrupts}
use llm_os_rust.Boot.Transcript.{screen_of, front, behind}
use llm_os_rust.Boot.Shuffle.{Shuffle, ended, left_all, right_all}

-- Whether interrupts are enabled behind an action.
abbrev pub enables : Action → Bool → Bool
enables enable_interrupts flag = true
enables _ flag = flag

-- What an action does to the screen.
abbrev pub perform : {K : Type 0} → Action → Machine K → Machine K
perform (print s) m = record m { writer = write_string s m.writer }
perform _ m = m

module _ {K Event : Type 0} (decoder : Decoder K Event) where
  -- From a machine to another through the actions that are left and the interrupts that arrive. An
  -- action that prints more than one text, as the boot of the agent does, may be interrupted between
  -- them.
  pub data Boots
      : Bool → List Action → List (Interrupt decoder) → Machine K → Machine K → Type 0 where
    finished : {flag : Bool} {m : Machine K} → Boots flag [] [] m m
    acts :
        {flag : Bool} {a : Action} {actions : List Action} {is : List (Interrupt decoder)}
        {m m' : Machine K}
        → Boots (enables a flag) actions is (perform a m) m'
        → Boots flag (a ∷ actions) is m m'
    prints :
        {flag : Bool} {u : Text} {actions : List Action} (s t : Text)
        {is : List (Interrupt decoder)} {m m' : Machine K}
        → u ≡ s ++ t
        → Boots flag (print t ∷ actions) is (perform (print s) m) m'
        → Boots flag (print u ∷ actions) is m m'
    ticks :
        {actions : List Action} {is : List (Interrupt decoder)} {m m' : Machine K}
        → Boots true actions is (on_timer m) m'
        → Boots true actions (tick ∷ is) m m'
    keys :
        {actions : List Action} {is : List (Interrupt decoder)} {m m' : Machine K} (scancode : ℕ)
        → Boots true actions is (on_keyboard decoder scancode m) m'
        → Boots true actions (key scancode ∷ is) m m'

  -- The screen got the text and the keys' texts in turns, and each interrupt was signalled.
  pub record Wove (s : Text) (is : List (Interrupt decoder)) (m m' : Machine K) : Type 0 where
    pub woven : Text
    pub shuffle : Shuffle s (typed decoder m.keyboard_state is) woven
    pub screen : m'.writer ≡ write_string woven m.writer
    pub signalled : m'.signals ≡ m.signals ++ vectors decoder is

  finished-Wove : (m : Machine K) → Wove [] [] m m
  finished-Wove m = record {
    woven = [];
    shuffle = ended;
    screen = sym (write_string-nil m.writer);
    signalled = sym (append-nil m.signals);
  }

  -- A print, in front of what follows it.
  prints-Wove :
      (u s : Text) (is : List (Interrupt decoder)) (m m' : Machine K)
      → Wove s is (record m { writer = write_string u m.writer }) m'
      → Wove (u ++ s) is m m'
  prints-Wove u s is m m' r = record {
    woven = u ++ r.woven;
    shuffle = left_all u r.shuffle;
    screen = r.screen ∙ sym (write_string-append u r.woven m.writer);
    signalled = r.signalled;
  }

  ticks-Wove :
      (s : Text) (is : List (Interrupt decoder)) (m m' : Machine K)
      → Wove s is (on_timer m) m'
      → Wove s (tick ∷ is) m m'
  ticks-Wove s is m m' r =
      let r' : Wove s is (record m { signals = m.signals ++ 32 ∷ [] }) m' =
        subst (λ x. Wove s is x m') (on_timer_lem decoder m) r in
      record {
        woven = r'.woven;
        shuffle = r'.shuffle;
        screen = r'.screen;
        signalled = r'.signalled ∙ append_assoc m.signals (32 ∷ []) (vectors decoder is);
      }

  keys-Wove :
      (s : Text) (scancode : ℕ) (is : List (Interrupt decoder)) (m m' : Machine K)
      → Wove s is (on_keyboard decoder scancode m) m'
      → Wove s (key scancode ∷ is) m m'
  keys-Wove s scancode is m m' r =
      let (pressed, k) = decode decoder scancode m.keyboard_state in
      let text = key_text pressed in
      let r' : Wove s is
          (record {
            keyboard_state = k;
            writer = write_string text m.writer;
            signals = m.signals ++ 33 ∷ [];
          })
          m' =
        subst (λ x. Wove s is x m') (on_keyboard_lem decoder scancode m) r in
      record {
        woven = text ++ r'.woven;
        shuffle = right_all text r'.shuffle;
        screen = r'.screen ∙ sym (write_string-append text r'.woven m.writer);
        signalled = r'.signalled ∙ append_assoc m.signals (33 ∷ []) (vectors decoder is);
      }

  acts-Wove :
      (a : Action) (actions : List Action) (is : List (Interrupt decoder)) (m m' : Machine K)
      → Wove (screen_of actions) is (perform a m) m'
      → Wove (screen_of (a ∷ actions)) is m m'
  acts-Wove (print s) actions is m m' r = prints-Wove s (screen_of actions) is m m' r
  acts-Wove _ actions is m m' r = r

  Boots-Wove :
      {flag : Bool} {actions : List Action} {is : List (Interrupt decoder)} {m m' : Machine K}
      → Boots flag actions is m m'
      → Wove (screen_of actions) is m m'
  Boots-Wove {m} finished = finished-Wove m
  Boots-Wove {is} {m} {m'} (acts {a} {actions} run) = acts-Wove a actions is m m' (Boots-Wove run)
  Boots-Wove {is} {m} {m'} (prints {actions} s t e run) =
      subst (λ x. Wove x is m m')
        (sym (append_assoc s t (screen_of actions)) ∙ ap (λ u. u ++ screen_of actions) (sym e))
        (prints-Wove s (t ++ screen_of actions) is m m' (Boots-Wove run))
  Boots-Wove {m} {m'} (ticks {actions} {is} run) =
      ticks-Wove (screen_of actions) is m m' (Boots-Wove run)
  Boots-Wove {m} {m'} (keys {actions} {is} scancode run) =
      keys-Wove (screen_of actions) scancode is m m' (Boots-Wove run)

  -- Before interrupts are enabled nothing comes in between.
  abbrev pub Follows :
      Text → List Action → List (Interrupt decoder) → Machine K → Machine K → Type 0
  Follows u actions is m m' =
      Wove (screen_of (behind actions)) is (record m { writer = write_string u m.writer }) m'

  then-Follows :
      (u v : Text) (actions : List Action) (is : List (Interrupt decoder)) (m m' : Machine K)
      → Follows v actions is (record m { writer = write_string u m.writer }) m'
      → Follows (u ++ v) actions is m m'
  then-Follows u v actions is m m' r =
      subst (λ w. Wove (screen_of (behind actions)) is (record m { writer = w }) m')
        (sym (write_string-append u v m.writer)) r

  nothing-Follows :
      (actions : List Action) (is : List (Interrupt decoder)) (m m' : Machine K)
      → Wove (screen_of (behind actions)) is m m'
      → Follows [] actions is m m'
  nothing-Follows actions is m m' r =
      subst (λ w. Wove (screen_of (behind actions)) is (record m { writer = w }) m')
        (sym (write_string-nil m.writer)) r

  pub Boots-Follows :
      {actions : List Action} {is : List (Interrupt decoder)} {m m' : Machine K}
      → Boots false actions is m m'
      → Follows (front actions) actions is m m'
  Boots-Follows {m} finished = nothing-Follows [] [] m m (finished-Wove m)
  Boots-Follows {is} {m} {m'} (acts {a = enable_interrupts} {actions} run) =
      nothing-Follows (enable_interrupts ∷ actions) is m m' (Boots-Wove run)
  Boots-Follows {is} {m} {m'} (acts {a = print s} {actions} run) =
      then-Follows s (front actions) actions is m m' (Boots-Follows run)
  Boots-Follows {is} {m} {m'} (acts run) = Boots-Follows run
  Boots-Follows {is} {m} {m'} (prints {actions} s t e run) =
      subst (λ u. Follows u actions is m m')
        (sym (append_assoc s t (front actions)) ∙ ap (λ u. u ++ front actions) (sym e))
        (then-Follows s (t ++ front actions) actions is m m' (Boots-Follows run))
