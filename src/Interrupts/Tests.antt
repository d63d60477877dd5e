-- ===== src/Interrupts/Tests.antt =====
-- A run of interrupts with a decoder that gives the byte of the scancode.
use llm_os_rust.Base.{ℕ, ◌≡◌, refl, List, [], ◌∷◌, some}
use llm_os_rust.Text.{codes}
use llm_os_rust.Vga.Tests.{writer}
use llm_os_rust.Interrupts.{
  Decoder, unicode, Machine, Interrupt, tick, key, trap, double, entry, idt,
  keyboard_interrupt_handler,
}

abbrev pub decoder : Decoder (Unit {0}) ℕ
decoder = record {
  add_byte = λ scancode k. (some scancode, k);
  process_keyevent = λ event k. (some (unicode event), k);
}

abbrev pub machine : Machine (Unit {0})
machine = record { keyboard_state = tt; writer = writer; signals = [] }

abbrev pub typing : List (Interrupt decoder)
typing = key 79 ∷ tick ∷ key 75 ∷ []

abbrev with_a_fault : List (Interrupt decoder)
with_a_fault = key 79 ∷ trap (codes "frame") ∷ double (codes "frame") ∷ tick ∷ []

keyboard_entry : entry 33 idt.interrupts ≡ some keyboard_interrupt_handler
unfolding entry idt
keyboard_entry = refl
