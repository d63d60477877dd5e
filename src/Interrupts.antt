-- ===== src/Interrupts.antt =====
-- src/interrupts.rs: the interrupt descriptor table and the handlers. The keyboard decoder comes
-- from the pc-keyboard crate and is the record `Decoder`; the text of a stack frame, of an error
-- code and of an address is what their `Debug` prints.
pub mod Handling
pub mod Tests
use llm_os_rust.Base.{
  ℕ, suc, ◌+◌, Bool, true, false, List, [], ◌∷◌, ◌++◌, Option, none, some, ◌==◌, if◌then◌else◌,
}
use llm_os_rust.Text.{Text, codes}
use llm_os_rust.Vga.{Writer, write_string}

abbrev pub pic_1_offset : ℕ
pic_1_offset = 32

abbrev pub pic_2_offset : ℕ
pic_2_offset = pic_1_offset + 8

pub data InterruptIndex : Type 0 where
  timer keyboard : InterruptIndex

-- `as_u8`, and so `as_usize`
unfoldable pub as_u8 : InterruptIndex → ℕ
as_u8 timer = pic_1_offset
as_u8 keyboard = pic_1_offset + 1

pub data Handler : Type 0 where
  breakpoint_handler double_fault_handler page_fault_handler : Handler
  timer_interrupt_handler keyboard_interrupt_handler : Handler

-- The table: its named entries, the stack of the double fault, and the entries by number.
pub record Idt : Type 0 where
  pub breakpoint : Option Handler
  pub double_fault : Option Handler
  pub double_fault_stack : Option ℕ
  pub page_fault : Option Handler
  pub interrupts : List (ℕ × Handler)

abbrev pub empty_idt : Idt
empty_idt = record {
  breakpoint = none;
  double_fault = none;
  double_fault_stack = none;
  page_fault = none;
  interrupts = [];
}

abbrev pub double_fault_ist_index : ℕ
double_fault_ist_index = 0

-- `IDT`
unfoldable pub idt : Idt
unfolding as_u8
idt = record empty_idt {
  breakpoint = some breakpoint_handler;
  double_fault = some double_fault_handler;
  double_fault_stack = some double_fault_ist_index;
  page_fault = some page_fault_handler;
  interrupts =
      (as_u8 timer, timer_interrupt_handler) ∷ (as_u8 keyboard, keyboard_interrupt_handler) ∷ [];
}

-- `idt[index]`
unfoldable pub entry : ℕ → List (ℕ × Handler) → Option Handler
entry vector [] = none
entry vector ((v, h) ∷ entries) = if v == vector then some h else entry vector entries

pub data DecodedKey : Type 0 where
  unicode : ℕ → DecodedKey
  raw_key : Text → DecodedKey

-- `Keyboard::add_byte`, an error and an event that is not complete both given as `none`, and
-- `Keyboard::process_keyevent`
pub record Decoder (K Event : Type 0) : Type 0 where
  pub add_byte : ℕ → K → Option Event × K
  pub process_keyevent : Event → K → Option DecodedKey × K

-- What the handlers change: the keyboard, the screen, and the end-of-interrupt signals sent.
pub record Machine (K : Type 0) : Type 0 where
  pub keyboard_state : K
  pub writer : Writer
  pub signals : List ℕ

module _ {K : Type 0} where
  unfoldable pub notify_end_of_interrupt : ℕ → Machine K → Machine K
  notify_end_of_interrupt vector m = record m { signals = m.signals ++ vector ∷ [] }

  unfoldable pub print : Text → Machine K → Machine K
  print s m = record m { writer = write_string s m.writer }

  unfoldable pub println : Text → Machine K → Machine K
  unfolding print
  println s m = print (s ++ codes "\n") m

  unfoldable pub on_timer : Machine K → Machine K
  unfolding notify_end_of_interrupt as_u8
  on_timer m = notify_end_of_interrupt (as_u8 timer) m

  unfoldable pub on_breakpoint : Text → Machine K → Machine K
  unfolding println
  on_breakpoint stack_frame m = println (codes "EXCEPTION: BREAKPOINT\n" ++ stack_frame) m

  -- The four lines that a page fault prints before it halts.
  unfoldable pub on_page_fault : Text → Text → Text → Machine K → Machine K
  unfolding println
  on_page_fault address error_code stack_frame m = println stack_frame (
      println (codes "Error Code: " ++ error_code) (
        println (codes "Accessed Address: " ++ address)
          (println (codes "EXCEPTION: PAGE FAULT") m)))

-- The text that a decoded key prints.
unfoldable pub key_text : Option DecodedKey → Text
key_text none = []
key_text (some (unicode character)) = character ∷ []
key_text (some (raw_key name)) = name

unfoldable pub print_key : {K : Type 0} → Option DecodedKey → Machine K → Machine K
unfolding print
print_key none m = m
print_key (some (unicode character)) m = print (character ∷ []) m
print_key (some (raw_key name)) m = print name m

module _ {K Event : Type 0} (decoder : Decoder K Event) where
  -- The key that a scancode completes, and the decoder behind it.
  abbrev pub decode_event : Option Event × K → Option DecodedKey × K
  decode_event (none, k) = (none, k)
  decode_event (some event, k) = decoder.process_keyevent event k

  unfoldable pub decode : ℕ → K → Option DecodedKey × K
  decode scancode k = decode_event (decoder.add_byte scancode k)

  -- `scancode` is the byte that is read from port 0x60.
  unfoldable pub on_keyboard : ℕ → Machine K → Machine K
  unfolding decode print_key notify_end_of_interrupt as_u8
  on_keyboard scancode m =
      let (key, k) = decode scancode m.keyboard_state in
      notify_end_of_interrupt (as_u8 keyboard) (print_key key (record m { keyboard_state = k }))

  -- What interrupts the kernel.
  pub data Interrupt : Type 0 where
    tick : Interrupt
    key : ℕ → Interrupt
    trap : Text → Interrupt
    fault : Text → Text → Text → Interrupt
    double : Text → Interrupt

  -- Whether the kernel goes on, halts for good, or panics.
  pub data Status : Type 0 where
    running : Machine K → Status
    halted : Machine K → Status
    panicking : Text → Machine K → Status

  unfoldable pub handle : Interrupt → Machine K → Status
  handle tick m = running (on_timer m)
  handle (key scancode) m = running (on_keyboard scancode m)
  handle (trap stack_frame) m = running (on_breakpoint stack_frame m)
  handle (fault address error_code stack_frame) m =
      halted (on_page_fault address error_code stack_frame m)
  handle (double stack_frame) m = panicking (codes "EXCEPTION: DOUBLE FAULT\n" ++ stack_frame) m

  -- The interrupts that arrive one after the other, until one ends the kernel.
  unfoldable pub handle_all : List Interrupt → Status → Status
  handle_all [] s = s
  handle_all (i ∷ rest) (running m) = handle_all rest (handle i m)
  handle_all (i ∷ rest) (halted m) = halted m
  handle_all (i ∷ rest) (panicking message m) = panicking message m
