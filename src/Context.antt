-- ===== src/Context.antt =====
-- src/agent/context.rs: the context window, the agent's bounded working memory. What the code
-- sends to the serial port is returned beside the new state, in the order of the writes.
pub mod Eviction
pub mod Room
pub mod Push
pub mod Bounds
pub mod Forget
pub mod History
pub mod Reference
pub mod Closed
mod Tests
use llm_os_rust.Base.{
  ℕ, zero, suc, ◌+◌, ◌-◌, ◌*◌, ◌/◌, ◌%◌, ◌^◌, Bool, true, false, not, List, [], ◌∷◌, ◌++◌, Option,
  none, some, ltb, leb, ◌==◌, if◌then◌else◌, length,
}
use llm_os_rust.Text.{Text, codes, len}
use llm_os_rust.Text.Decimal.{format_u64}

pub data Role : Type 0 where
  system user assistant tool : Role

unfoldable pub as_str : Role → Text
as_str system = codes "system"
as_str user = codes "user"
as_str assistant = codes "assistant"
as_str tool = codes "tool"

-- `role == Role::System`
unfoldable pub is_system : Role → Bool
is_system system = true
is_system user = false
is_system assistant = false
is_system tool = false

pub record Message : Type 0 where
  pub role : Role
  pub content : Text
  pub token_count : ℕ

-- `VecDeque<Message>` is a list, its front first.
pub record ContextWindow : Type 0 where
  pub messages : List Message
  pub max_tokens : ℕ
  pub current_tokens : ℕ
  pub total_evicted : ℕ

-- `usize` has 64 bits. The sum is that of a release build; a dev build panics where it wraps.
abbrev pub usize_mod : ℕ
usize_mod = 2 ^ 64

unfoldable pub usize_add : ℕ → ℕ → ℕ
usize_add a b = (a + b) % usize_mod

-- `ContextWindow::new`
unfoldable pub new : ℕ → ContextWindow
new max_tokens = record {
  messages = [];
  max_tokens = max_tokens;
  current_tokens = 0;
  total_evicted = 0;
}

unfoldable pub estimate_tokens : Text → ℕ
unfolding len
estimate_tokens text = let count = len text / 4 in if count == 0 then 1 else count

-- `iter().position(|m| m.role != Role::System)`
unfoldable pub position_evictable : List Message → Option ℕ
unfolding is_system
position_evictable [] = none
position_evictable (m ∷ ms) =
    if not (is_system m.role)
    then some 0
    else elim (position_evictable ms) [ none ↦ none | some i ↦ some (suc i) ]

-- `VecDeque::remove`
unfoldable pub remove : ℕ → List Message → Option (Message × List Message)
remove i [] = none
remove zero (m ∷ ms) = some (m, ms)
remove (suc i) (m ∷ ms) = elim (remove i ms) [ none ↦ none | some (x, rest) ↦ some (x, m ∷ rest) ]

-- What is left of the window once the message is taken out; `saturating_sub` stops at 0.
unfoldable pub without : ContextWindow → Message → List Message → ContextWindow
without w m rest = record w { messages = rest; current_tokens = w.current_tokens - m.token_count }

unfoldable pub evict_oldest : ContextWindow → Option (Message × ContextWindow)
unfolding position_evictable remove without
evict_oldest w = elim (position_evictable w.messages) [
  | none ↦ none
  | some idx ↦ elim (remove idx w.messages) [
    | none ↦ none
    | some (m, rest) ↦ some (m, without w m rest)
  ]
]

-- The line of `serial_println!` for one eviction.
unfoldable pub eviction_line : Message → ℕ → Text
unfolding as_str format_u64
eviction_line evicted total =
    codes "[context] Evicted "
    ++ (as_str evicted.role
        ++ (codes " message ("
            ++ (format_u64 evicted.token_count
                ++ (codes " tokens). Total evicted: " ++ (format_u64 total ++ codes "\n")))))

unfoldable pub count_eviction : ContextWindow → ContextWindow
unfolding usize_add
count_eviction w = record w { total_evicted = usize_add w.total_evicted 1 }

-- The eviction loop, with the rounds that are left. Each round that goes on takes a message out,
-- so that one round more than there are messages is enough.
unfoldable pub make_room : ℕ → ℕ → ContextWindow → ContextWindow × Text
unfolding usize_add evict_oldest count_eviction
make_room zero token_count w = (w, [])
make_room (suc fuel) token_count w =
    elim (ltb w.max_tokens (usize_add w.current_tokens token_count)) [
      | false ↦ (w, [])
      | true ↦ elim (evict_oldest w) [
        | none ↦ (w, [])
        | some (m, w') ↦
            let w'' = count_eviction w' in
            let (v, out) = make_room fuel token_count w'' in
            (v, eviction_line m w''.total_evicted ++ out)
      ]
    ]

unfoldable pub push_back : Role → Text → ContextWindow → ContextWindow
push_back role content w = record w {
  current_tokens = usize_add w.current_tokens (estimate_tokens content);
  messages =
      w.messages
      ++ (record { role = role; content = content; token_count = estimate_tokens content }) ∷ [];
}

-- `push_message`, with what it prints
unfoldable pub push_message : Role → Text → ContextWindow → ContextWindow × Text
push_message role content w =
    let (v, out) = make_room (suc (length w.messages)) (estimate_tokens content) w in
    (push_back role content v, out)

-- The getters `current_tokens` and `max_tokens`
unfoldable pub current_tokens : ContextWindow → ℕ
current_tokens w = w.current_tokens

unfoldable pub max_tokens : ContextWindow → ℕ
max_tokens w = w.max_tokens

unfoldable pub message_count : ContextWindow → ℕ
message_count w = length w.messages

-- `status`. The kernel computes the percentage in `f64` and prints it by `{:.1}`: `percent` is the
-- text that the two numbers give.
module _ (percent : ℕ → ℕ → Text) where
  unfoldable pub status : ContextWindow → Text
  unfolding message_count
  status w =
      codes "Context Window Status:\nTokens: "
      ++ (format_u64 w.current_tokens
          ++ (codes "/"
              ++ (format_u64 w.max_tokens
                  ++ (codes " ("
                      ++ (percent w.current_tokens w.max_tokens
                          ++ (codes "% full)\nMessages: "
                              ++ (format_u64 (message_count w)
                                  ++ (codes "\nEvicted: " ++ format_u64 w.total_evicted))))))))
