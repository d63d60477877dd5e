-- ===== src/Interrupts/Handling.antt =====
-- What a sequence of interrupts leaves.
use llm_os_rust.Base.{
  ◌==◌, Bool-cases, inl, inr, ℕ, ◌≡◌, refl, ap, sym, ◌∙◌, List, [], ◌∷◌, ◌++◌, Option, none, some,
  All, arith, append_assoc, append-nil, ◌↔◌,
}
use llm_os_rust.Text.{Text}
use llm_os_rust.Vga.{write_string}
use llm_os_rust.Vga.Append.{write_string-append, write_string-nil}
use llm_os_rust.Vga.Invariant.{IsValid, write_string-IsValid}
use llm_os_rust.Interrupts.{
  InterruptIndex, timer, keyboard, as_u8, Handler, timer_interrupt_handler,
  keyboard_interrupt_handler, idt, entry, Decoder, Machine, notify_end_of_interrupt, on_timer,
  on_breakpoint, on_page_fault, key_text, print_key, decode, on_keyboard, Interrupt, tick, key,
  trap, fault, double, Status, running, halted, panicking, handle, handle_all, DecodedKey, unicode,
  raw_key,
}

abbrev pub handler_of : InterruptIndex → Handler
handler_of timer = timer_interrupt_handler
handler_of keyboard = keyboard_interrupt_handler

-- The table has a handler at a vector exactly if the vector is that of a hardware interrupt and
-- the handler is the one of that interrupt.
pub idt_entries :
    (vector : ℕ) (h : Handler)
    → (entry vector idt.interrupts ≡ some h)
      ↔ ((i : InterruptIndex) × (as_u8 i ≡ vector) × (handler_of i ≡ h))
unfolding entry idt as_u8
idt_entries vector h = (to, from)
  where
    to :
        entry vector idt.interrupts ≡ some h
        → (i : InterruptIndex) × (as_u8 i ≡ vector) × (handler_of i ≡ h)
    to e = elim (Bool-cases (32 == vector)) [
      | inl at ↦ (timer, ground arith, ground arith)
      | inr other ↦ (keyboard, ground arith, ground arith)
    ]

    from :
        (i : InterruptIndex) × (as_u8 i ≡ vector) × (handler_of i ≡ h)
        → entry vector idt.interrupts ≡ some h
    from (timer, at, e) = ground arith
    from (keyboard, at, e) = ground arith

pub print_key-text :
    {K : Type 0} (o : Option DecodedKey) (m : Machine K)
    → print_key o m ≡ record m { writer = write_string (key_text o) m.writer }
unfolding print_key key_text
print_key-text none m = ap (λ w. record m { writer = w }) (sym (write_string-nil m.writer))
print_key-text (some (unicode c)) m = refl
print_key-text (some (raw_key name)) m = refl

module _ {K Event : Type 0} (decoder : Decoder K Event) where
  -- A hardware interrupt.
  abbrev pub IsHardware : Interrupt decoder → Type 0
  IsHardware tick = Unit
  IsHardware (key scancode) = Unit
  IsHardware (trap stack_frame) = ⊥
  IsHardware (fault address error_code stack_frame) = ⊥
  IsHardware (double stack_frame) = ⊥

  -- The vectors of the hardware interrupts.
  abbrev pub vectors : List (Interrupt decoder) → List ℕ
  vectors [] = []
  vectors (tick ∷ rest) = 32 ∷ vectors rest
  vectors (key scancode ∷ rest) = 33 ∷ vectors rest
  vectors (_ ∷ rest) = vectors rest

  -- The text that the keys give, decoded one after the other.
  abbrev pub typed : K → List (Interrupt decoder) → Text
  typed k [] = []
  typed k (key scancode ∷ rest) =
      key_text (decode decoder scancode k).0 ++ typed (decode decoder scancode k).1 rest
  typed k (_ ∷ rest) = typed k rest

  pub on_timer_lem : (m : Machine K) → on_timer m ≡ record m { signals = m.signals ++ 32 ∷ [] }
  unfolding on_timer
  on_timer_lem m = refl

  pub on_keyboard_lem :
      (scancode : ℕ) (m : Machine K)
      → on_keyboard decoder scancode m ≡ (record {
        keyboard_state = (decode decoder scancode m.keyboard_state).1;
        writer = write_string (key_text (decode decoder scancode m.keyboard_state).0) m.writer;
        signals = m.signals ++ 33 ∷ [];
      })
  unfolding on_keyboard
  on_keyboard_lem scancode m = ap (notify_end_of_interrupt 33) (
      print_key-text (decode decoder scancode m.keyboard_state).0
        (record m { keyboard_state = (decode decoder scancode m.keyboard_state).1 }))

  -- Timer and keyboard interrupts never end the kernel. Each is acknowledged once, under its
  -- own vector and in the order of arrival, and the screen is as if the texts of the keys had
  -- been printed at once.
  pub handle_all_hardware :
      (is : List (Interrupt decoder)) (m : Machine K)
      → All IsHardware is
      → (m' : Machine K) × (handle_all decoder is (running m) ≡ running m')
        × (m'.signals ≡ m.signals ++ vectors is)
        × (m'.writer ≡ write_string (typed m.keyboard_state is) m.writer)
  unfolding handle_all handle
  handle_all_hardware [] m h =
      (m, refl, sym (append-nil m.signals), sym (write_string-nil m.writer))
  handle_all_hardware (tick ∷ is) m (h, hs) =
      let (m', runs, signals, writer) = handle_all_hardware is (on_timer m) hs in
      (
        m',
        runs,
        signals
            ∙ ap (λ x. x.signals ++ vectors is) (on_timer_lem m)
            ∙ append_assoc m.signals (32 ∷ []) (vectors is),
        writer ∙ ap (λ x. write_string (typed x.keyboard_state is) x.writer) (on_timer_lem m),
      )
  handle_all_hardware (key scancode ∷ is) m (h, hs) =
      let (m', runs, signals, writer) =
        handle_all_hardware is (on_keyboard decoder scancode m) hs in
      (
        m',
        runs,
        signals
            ∙ ap (λ x. x.signals ++ vectors is) (on_keyboard_lem scancode m)
            ∙ append_assoc m.signals (33 ∷ []) (vectors is),
        writer
            ∙ ap (λ x. write_string (typed x.keyboard_state is) x.writer)
                (on_keyboard_lem scancode m)
            ∙ sym (write_string-append _ _ m.writer),
      )
  handle_all_hardware (trap f ∷ is) m (h, hs) = absurd h
  handle_all_hardware (fault a e f ∷ is) m (h, hs) = absurd h
  handle_all_hardware (double f ∷ is) m (h, hs) = absurd h

  abbrev pub machine_of : Status decoder → Machine K
  machine_of (running m) = m
  machine_of (halted m) = m
  machine_of (panicking message m) = m

  print_key-IsValid :
      (o : Option DecodedKey) (m : Machine K) → IsValid m.writer → IsValid (print_key o m).writer
  print_key-IsValid o m h = rw (print_key-text o m) (write_string-IsValid (key_text o) m.writer h)

  handle-IsValid :
      (i : Interrupt decoder) (m : Machine K)
      → IsValid m.writer
      → IsValid (machine_of (handle decoder i m)).writer
  unfolding handle on_timer on_keyboard on_breakpoint on_page_fault
  handle-IsValid tick m h = h
  handle-IsValid (key scancode) m h =
      print_key-IsValid (decode decoder scancode m.keyboard_state).0
        (record m { keyboard_state = (decode decoder scancode m.keyboard_state).1 }) h
  handle-IsValid (trap f) m h = write_string-IsValid _ m.writer h
  handle-IsValid (fault a e f) m h =
      write_string-IsValid _ _
        (write_string-IsValid _ _ (write_string-IsValid _ _ (write_string-IsValid _ m.writer h)))
  handle-IsValid (double f) m h = h

  -- Whatever interrupts arrive, a screen of twenty-five rows of eighty cells stays one, with
  -- the column in the row.
  pub handle_all-IsValid :
      (is : List (Interrupt decoder)) (s : Status decoder)
      → IsValid (machine_of s).writer
      → IsValid (machine_of (handle_all decoder is s)).writer
  unfolding handle_all
  handle_all-IsValid [] s h = h
  handle_all-IsValid (i ∷ is) (running m) h =
      handle_all-IsValid is (handle decoder i m) (handle-IsValid i m h)
  handle_all-IsValid (i ∷ is) (halted m) h = h
  handle_all-IsValid (i ∷ is) (panicking message m) h = h
