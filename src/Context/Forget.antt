-- ===== src/Context/Forget.antt =====
-- Laws of forgetting the oldest evictable messages, and of the log of them.
use llm_os_rust.Base.{
  ℕ, zero, suc, ◌+◌, ◌≤◌, ◌<◌, ◌≡◌, sym, ap, ◌∙◌, [], ◌∷◌, ◌++◌, arith, List, length, append_assoc,
}
use llm_os_rust.Context.{Message, usize_mod, usize_add, eviction_line}
use llm_os_rust.Context.Eviction.{
  forget, forgotten, evictable, forget-suc, forget-zero, forgotten-zero, forgotten-suc,
}
use llm_os_rust.Context.Room.{eviction_lines}

pub forget-append :
    (k : ℕ) (ms ns : List Message) → k ≤ evictable ms → forget k (ms ++ ns) ≡ forget k ms ++ ns
unfolding forget evictable
forget-append zero ms ns h = forget-zero (ms ++ ns) ∙ ap (λ xs. xs ++ ns) (sym (forget-zero ms))
forget-append (suc k) [] ns h = absurd (omega arith)
forget-append (suc k) (m ∷ ms) ns h =
    ground (arith, forget-append (suc k) ms ns, forget-append k ms ns)

pub forgotten-append :
    (k : ℕ) (ms ns : List Message) → k ≤ evictable ms → forgotten k (ms ++ ns) ≡ forgotten k ms
unfolding forgotten evictable
forgotten-append zero ms ns h = forgotten-zero (ms ++ ns) ∙ sym (forgotten-zero ms)
forgotten-append (suc k) [] ns h = absurd (omega arith)
forgotten-append (suc k) (m ∷ ms) ns h =
    ground (arith, forgotten-append (suc k) ms ns, forgotten-append k ms ns)

pub evictable-append : (ms ns : List Message) → evictable (ms ++ ns) ≡ evictable ms + evictable ns
unfolding evictable
evictable-append [] ns = omega arith
evictable-append (m ∷ ms) ns = ground (arith, evictable-append ms ns)

-- To forget some and then more is to forget both at once.
pub forget-add : (j k : ℕ) (ms : List Message) → forget k (forget j ms) ≡ forget (j + k) ms
forget-add zero k ms = ap (forget k) (forget-zero ms) ∙ ap (λ n. forget n ms) (omega arith)
forget-add (suc j) k ms =
    ap (forget k) (forget-suc j ms)
    ∙ forget-add j k (forget 1 ms)
    ∙ sym (forget-suc (j + k) ms)
    ∙ ap (λ n. forget n ms) (omega arith)

pub forgotten-add :
    (j k : ℕ) (ms : List Message)
    → forgotten (j + k) ms ≡ forgotten j ms ++ forgotten k (forget j ms)
forgotten-add zero k ms =
    ap (λ n. forgotten n ms) (omega arith)
    ∙ ap (forgotten k) (sym (forget-zero ms))
    ∙ ap (λ xs. xs ++ forgotten k (forget 0 ms)) (sym (forgotten-zero ms))
forgotten-add (suc j) k ms =
    ap (λ n. forgotten n ms) (omega arith)
    ∙ forgotten-suc (j + k) ms
    ∙ ap (λ xs. forgotten 1 ms ++ xs) (forgotten-add j k (forget 1 ms))
    ∙ sym (
        append_assoc (forgotten 1 ms) (forgotten j (forget 1 ms))
          (forgotten k (forget j (forget 1 ms))))
    ∙ ap (λ xs. xs ++ forgotten k (forget j (forget 1 ms))) (sym (forgotten-suc j ms))
    ∙ ap (λ xs. forgotten (suc j) ms ++ forgotten k xs) (sym (forget-suc j ms))

pub evictable-forget :
    (k : ℕ) (ms : List Message) → k ≤ evictable ms → evictable (forget k ms) + k ≡ evictable ms
unfolding forget evictable
evictable-forget zero ms h = omega (arith, ap evictable (forget-zero ms))
evictable-forget (suc k) [] h = absurd (omega arith)
evictable-forget (suc k) (m ∷ ms) h =
    ground (arith, evictable-forget (suc k) ms, evictable-forget k ms)

pub length-forgotten : (k : ℕ) (ms : List Message) → k ≤ evictable ms → length (forgotten k ms) ≡ k
unfolding forgotten evictable
length-forgotten zero ms h = ap length (forgotten-zero ms)
length-forgotten (suc k) [] h = absurd (omega arith)
length-forgotten (suc k) (m ∷ ms) h =
    ground (arith, length-forgotten (suc k) ms, length-forgotten k ms)

pub eviction_lines-append :
    (n : ℕ) (ms ns : List Message)
    → n + length ms < usize_mod
    → eviction_lines n (ms ++ ns) ≡ eviction_lines n ms ++ eviction_lines (n + length ms) ns
unfolding eviction_lines usize_add
eviction_lines-append n [] ns h = ap (λ k. eviction_lines k ns) (omega arith)
eviction_lines-append n (m ∷ ms) ns h =
    ap (λ s. eviction_line m (usize_add n 1) ++ s)
      (eviction_lines-append (usize_add n 1) ms ns (omega arith)
        ∙ ap (λ k. eviction_lines (usize_add n 1) ms ++ eviction_lines k ns) (omega arith))
    ∙ sym (
        append_assoc (eviction_line m (usize_add n 1)) (eviction_lines (usize_add n 1) ms)
          (eviction_lines (n + suc (length ms)) ns))
