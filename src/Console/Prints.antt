-- ===== src/Console/Prints.antt =====
-- Steps of one caller of `_print`, to the end of a print.
use llm_os_rust.Base.{◌∙◌, ℕ, ◌≡◌, Bool, true, false, List, [], ◌∷◌}
use llm_os_rust.Text.{Text, bytes}
use llm_os_rust.Vga.{Writer, write_byte, shown, write_string, write_bytes}
use llm_os_rust.Console.{
  Sync, Pc, outside, masked, writing, unlocked, PrintStep, acquire, byte, release, restore, leave,
  mask,
}
use llm_os_rust.Console.Locking.{Fits}

-- The writer behind the print.
abbrev pub completed : Pc → Writer → Writer
completed (masked was text) w = write_string text w
completed (writing was rest) w = write_bytes rest w
completed _ w = w

module _ {S : Type 0} (sync : Sync S) where
  open sync use {enabled, held}

  -- Steps of one caller of `_print`.
  pub data PrintRun : S → Writer → Pc → S → Writer → Pc → Type 0 where
    stay : {s : S} {w : Writer} {p : Pc} → PrintRun s w p s w p
    go :
        {s t u : S} {w v z : Writer} {p q r : Pc} {out : List Text}
        → PrintStep sync s w p t v q out
        → PrintRun t v q u z r
        → PrintRun s w p u z r

  -- The end of a print that can take its lock.
  pub record Ends (s : S) (w : Writer) (p : Pc) : Type 0 where
    pub cpu : S
    pub run : PrintRun s w p cpu (completed p w) outside
    pub free : held cpu ≡ false

  Ends-unlocked : (was : Bool) (s : S) (w : Writer) → held s ≡ false → Ends s w (unlocked was)
  Ends-unlocked true s w h = record {
    cpu = sync.enable s;
    run = go restore stay;
    free = sync.enable-held s ∙ h;
  }
  Ends-unlocked false s w h = record { cpu = s; run = go leave stay; free = h }

  Ends-writing : (was : Bool) (rest : List ℕ) (s : S) (w : Writer) → Ends s w (writing was rest)
  unfolding write_bytes
  Ends-writing was [] s w =
      let e = Ends-unlocked was (sync.unlock s) w (sync.unlock-held s) in
      record { cpu = e.cpu; run = go release e.run; free = e.free }
  Ends-writing was (b ∷ rest) s w =
      let e = Ends-writing was rest s (write_byte (shown b) w) in
      record { cpu = e.cpu; run = go byte e.run; free = e.free }

  pub Ends-all : (p : Pc) (s : S) (w : Writer) → Fits (enabled s) (held s) p → Ends s w p
  unfolding write_string
  Ends-all outside s w f = record { cpu = s; run = stay; free = f }
  Ends-all (masked was text) s w (off, free) =
      let e = Ends-writing was (bytes text) (sync.lock s) w in
      record { cpu = e.cpu; run = go (acquire free) e.run; free = e.free }
  Ends-all (writing was rest) s w f = Ends-writing was rest s w
  Ends-all (unlocked was) s w (off, free) = Ends-unlocked was s w free

  -- A print from outside.
  pub prints :
      (text : Text) (s : S) (w : Writer)
      → held s ≡ false
      → (t : S) × PrintRun s w outside t (write_string text w) outside × (held t ≡ false)
  prints text s w h =
      let e =
        Ends-all (masked (enabled s) text) (sync.disable s) w
          (sync.disable-enabled s, sync.disable-held s ∙ h) in
      (e.cpu, go (mask text) e.run, e.free)
