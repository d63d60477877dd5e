-- ===== src/Boot/Transcript.antt =====
-- What a boot that succeeds prints.
use llm_os_rust.Base.{◌≡◌, refl, List, [], ◌∷◌, ◌++◌}
use llm_os_rust.Text.{Text, codes}
use llm_os_rust.Agent
use llm_os_rust.Boot.{
  Action, print, enable_interrupts, serial_print, Selectors, banner, init, gdt_init,
  start_agent_actions, serial_println,
}

-- What actions print on the screen.
abbrev pub screen_of : List Action → Text
screen_of [] = []
screen_of (print s ∷ actions) = s ++ screen_of actions
screen_of (_ ∷ actions) = screen_of actions

-- What actions send to the serial port.
abbrev pub serial_of : List Action → Text
serial_of [] = []
serial_of (serial_print s ∷ actions) = s ++ serial_of actions
serial_of (_ ∷ actions) = serial_of actions

-- The actions of a boot that succeeds.
abbrev pub all_actions : Selectors → List Action
all_actions selectors =
    (banner ++ (init selectors ++ serial_println (codes "[kernel] GDT, IDT, PIC initialized") ∷ []))
    ++ start_agent_actions (Agent.boot Agent.new).1

-- What the boot prints on the screen before it enables interrupts.
abbrev pub banner_text : Text
banner_text =
    codes "==================================\n"
    ++ (codes "  LLM OS v0.1.0\n"
        ++ (codes "  An AI-First Operating System\n"
            ++ codes "==================================\n"))

-- And what it prints from there on.
abbrev pub start_text : Text
start_text =
    codes "\nHardware initialized.\nStarting Agent runtime...\n"
    ++ (codes "  Tools: 4\n  Context: 51/4096 tokens\n\n"
        ++ codes "Agent is alive. Entering run loop.\n")

abbrev pub boot_text : Text
boot_text = banner_text ++ start_text

-- The serial output of the boot.
abbrev pub boot_log : Text
boot_log =
    codes "[kernel] Booting LLM OS...\n[kernel] GDT, IDT, PIC initialized\n"
    ++ (codes "[kernel] Heap allocator initialized\n[kernel] Starting Agent runtime...\n"
        ++ (codes "[agent] Booting agent...\n[agent] System prompt loaded (51 tokens used)\n"
            ++ (codes "[agent] 4 tools registered: [\"calc\", \"echo\", \"recall\", \"store\"]\n"
                ++ codes "[kernel] Agent run loop started\n")))

boot-printed : (Agent.boot Agent.new).1 ≡ record {
  serial =
      codes "[agent] Booting agent...\n[agent] System prompt loaded (51 tokens used)\n"
      ++ codes "[agent] 4 tools registered: [\"calc\", \"echo\", \"recall\", \"store\"]\n";
  screen = codes "  Tools: 4\n  Context: 51/4096 tokens\n";
}
unfolding Agent.boot Agent.new Agent.boot_serial Agent.boot_screen Agent.system_prompt
    Agent.register_tools llm_os_rust.Context.push_message llm_os_rust.Context.make_room
    llm_os_rust.Context.new llm_os_rust.Context.estimate_tokens llm_os_rust.Text.Decimal.format_u64
    llm_os_rust.Context.push_back llm_os_rust.Tools.tool_count llm_os_rust.Tools.register
    llm_os_rust.BTreeMap.insert llm_os_rust.Tools.new llm_os_rust.Text.text_eq
    llm_os_rust.Tools.name llm_os_rust.Text.text_lt llm_os_rust.Tools.debug_names
    llm_os_rust.BTreeMap.keys llm_os_rust.Context.usize_add llm_os_rust.Text.Decimal.digits
    llm_os_rust.Text.bytes llm_os_rust.Text.len llm_os_rust.Text.utf8 llm_os_rust.Tools.debug_name
    llm_os_rust.Tools.debug_rest llm_os_rust.Tools.tool_names
boot-printed = refl

pub all_actions-screen : (selectors : Selectors) → screen_of (all_actions selectors) ≡ boot_text
unfolding banner init gdt_init start_agent_actions
all_actions-screen selectors = rw boot-printed refl

pub all_actions-serial : (selectors : Selectors) → serial_of (all_actions selectors) ≡ boot_log
unfolding banner init gdt_init start_agent_actions
all_actions-serial selectors = rw boot-printed refl

-- The text of the actions up to the one that enables interrupts, and the actions behind it.
abbrev pub front : List Action → Text
front [] = []
front (enable_interrupts ∷ actions) = []
front (print s ∷ actions) = s ++ front actions
front (_ ∷ actions) = front actions

abbrev pub behind : List Action → List Action
behind [] = []
behind (enable_interrupts ∷ actions) = actions
behind (_ ∷ actions) = behind actions

pub all_actions-front : (selectors : Selectors) → front (all_actions selectors) ≡ banner_text
unfolding banner init gdt_init start_agent_actions
all_actions-front selectors = refl

pub all_actions-behind :
    (selectors : Selectors) → screen_of (behind (all_actions selectors)) ≡ start_text
unfolding banner init gdt_init start_agent_actions
all_actions-behind selectors = rw boot-printed refl
