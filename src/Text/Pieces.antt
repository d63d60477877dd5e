-- ===== src/Text/Pieces.antt =====
-- Laws of trimming and splitting.
use llm_os_rust.Base.{
  ℕ, ◌≡◌, ◌≢◌, refl, ap, sym, ◌∙◌, false, List, [], ◌∷◌, ◌++◌, arith, All, ◌==◌, append_assoc,
  append-nil,
}
use llm_os_rust.Text.{
  Text, is_whitespace, trim_start, trim_last, trim_end, trim, fields, drop_empty, split_whitespace,
  splitn_two_from, splitn_two,
}

abbrev pub IsVisible : ℕ → Type 0
IsVisible c = is_whitespace c ≡ false

-- A piece that splitting on white space leaves whole.
pub record IsWord (s : Text) : Type 0 where
  pub nonempty : s ≢ []
  pub visible : All IsVisible s

-- `c` does not occur in the text.
abbrev pub Lacks : ℕ → Text → Type 0
Lacks sep = All (λ c. (c == sep) ≡ false)

splitn_two_from-append :
    (sep : ℕ) (cur s rest : Text)
    → Lacks sep s
    → splitn_two_from sep cur (s ++ sep ∷ rest) ≡ (cur ++ s) ∷ rest ∷ []
unfolding splitn_two_from
splitn_two_from-append sep cur [] rest h = ground (arith, append-nil cur)
splitn_two_from-append sep cur (c ∷ s) rest (h, hs) =
    rw (h, splitn_two_from)
      (splitn_two_from-append sep (cur ++ c ∷ []) s rest hs
        ∙ ap (λ t. t ∷ rest ∷ []) (append_assoc cur (c ∷ []) s))

-- The first separator ends the first part, and the second part is the rest, whatever it holds.
pub splitn_two-append :
    (sep : ℕ) (s rest : Text) → Lacks sep s → splitn_two sep (s ++ sep ∷ rest) ≡ s ∷ rest ∷ []
unfolding splitn_two
splitn_two-append sep s rest h = splitn_two_from-append sep [] s rest h

splitn_two_from-Lacks :
    (sep : ℕ) (cur s : Text) → Lacks sep s → splitn_two_from sep cur s ≡ (cur ++ s) ∷ []
unfolding splitn_two_from
splitn_two_from-Lacks sep cur [] h = ground (arith, append-nil cur)
splitn_two_from-Lacks sep cur (c ∷ s) (h, hs) =
    rw (h, splitn_two_from)
      (splitn_two_from-Lacks sep (cur ++ c ∷ []) s hs
        ∙ ap (λ t. t ∷ []) (append_assoc cur (c ∷ []) s))

pub splitn_two-Lacks : (sep : ℕ) (s : Text) → Lacks sep s → splitn_two sep s ≡ s ∷ []
unfolding splitn_two
splitn_two-Lacks sep s h = splitn_two_from-Lacks sep [] s h

fields_at_visible :
    (cur : Text) (c : ℕ) (s : Text) → IsVisible c → fields cur (c ∷ s) ≡ fields (cur ++ c ∷ []) s
unfolding fields
fields_at_visible cur c s h = ground arith

fields-append :
    (cur s rest : Text) → All IsVisible s → fields cur (s ++ rest) ≡ fields (cur ++ s) rest
fields-append cur [] rest h = rw (append-nil cur)
fields-append cur (c ∷ s) rest (h, hs) = rw (fields_at_visible cur c (s ++ rest) h) (
    fields-append (cur ++ c ∷ []) s rest hs ∙ ap (λ t. fields t rest) (append_assoc cur (c ∷ []) s))

fields_at_space : (cur s : Text) → fields cur (b' ' ∷ s) ≡ cur ∷ fields [] s
unfolding fields is_whitespace
fields_at_space cur s = refl

drop_empty-word : (s : Text) (ps : List Text) → s ≢ [] → drop_empty (s ∷ ps) ≡ s ∷ drop_empty ps
unfolding drop_empty
drop_empty-word [] ps h = absurd (h refl)
drop_empty-word (c ∷ s) ps h = refl

-- Three words with a space between them.
abbrev pub three_words : Text → Text → Text → Text
three_words a b c = a ++ b' ' ∷ (b ++ b' ' ∷ c)

fields-three_words :
    (a b c : Text) → IsWord a → IsWord b → IsWord c → fields [] (three_words a b c) ≡ a ∷ b ∷ c ∷ []
fields-three_words a b c ha hb hc =
    fields-append [] a _ ha.visible
    ∙ fields_at_space a _
    ∙ ap (λ ps. a ∷ ps) (fields-append [] b _ hb.visible ∙ fields_at_space b _)
    ∙ ap (λ s. a ∷ b ∷ fields [] s) (sym (append-nil c))
    ∙ ap (λ ps. a ∷ b ∷ ps) (fields-append [] c [] hc.visible ∙ unfold fields in refl)

trim_end-visible : (c : ℕ) (s : Text) → IsVisible c → All IsVisible s → trim_end (c ∷ s) ≡ c ∷ s
unfolding trim_end trim_last
trim_end-visible c [] h hs = ground arith
trim_end-visible c (d ∷ s) h (hd, hs) = rw (trim_end-visible d s hd hs)

trim_last-ne-nil : (c : ℕ) (s : Text) → s ≢ [] → trim_last c s ≡ c ∷ s
unfolding trim_last
trim_last-ne-nil c [] h = absurd (h refl)
trim_last-ne-nil c (d ∷ s) h = refl

append-ne-nil : (s t : Text) → t ≢ [] → s ++ t ≢ []
append-ne-nil [] t h = h
append-ne-nil (c ∷ s) t h = cc

-- Trimming the end stops at a word.
trim_end-append : (s t : Text) → IsWord t → trim_end (s ++ t) ≡ s ++ t
unfolding trim_end
trim_end-append [] [] h = absurd (h.nonempty refl)
trim_end-append [] (c ∷ t) h = trim_end-visible c t h.visible.0 h.visible.1
trim_end-append (c ∷ s) t h =
    rw (trim_end-append s t h) (trim_last-ne-nil c (s ++ t) (append-ne-nil s t h.nonempty))

trim_start-word : (s t : Text) → IsWord s → trim_start (s ++ t) ≡ s ++ t
unfolding trim_start
trim_start-word [] t h = absurd (h.nonempty refl)
trim_start-word (c ∷ s) t h = ground (arith, h.visible.0)

pub trim-word : (s : Text) → IsWord s → trim s ≡ s
unfolding trim
trim-word s h =
    ap trim_end (ap trim_start (sym (append-nil s)) ∙ trim_start-word s [] h ∙ append-nil s)
    ∙ trim_end-append [] s h

-- Text that begins and ends with a word has nothing to trim.
trim-words : (s t u : Text) → IsWord s → IsWord u → trim (s ++ t ++ u) ≡ s ++ t ++ u
unfolding trim
trim-words s t u hs hu =
    ap trim_end (
      ap trim_start (append_assoc s t u) ∙ trim_start-word s (t ++ u) hs ∙ sym (append_assoc s t u))
    ∙ trim_end-append (s ++ t) u hu

three_words_split : (a b c : Text) → three_words a b c ≡ a ++ (b' ' ∷ (b ++ b' ' ∷ [])) ++ c
three_words_split a b c = simp append_assoc

-- An expression of three words is split into them.
pub split_whitespace-three_words :
    (a b c : Text)
    → IsWord a
    → IsWord b
    → IsWord c
    → split_whitespace (trim (three_words a b c)) ≡ a ∷ b ∷ c ∷ []
split_whitespace-three_words a b c ha hb hc =
    ap split_whitespace (
      ap trim (three_words_split a b c)
      ∙ trim-words a (b' ' ∷ (b ++ b' ' ∷ [])) c ha hc
      ∙ sym (three_words_split a b c))
    ∙ (unfold split_whitespace in
        ap drop_empty (fields-three_words a b c ha hb hc)
        ∙ drop_empty-word a (b ∷ c ∷ []) ha.nonempty
        ∙ ap (λ ps. a ∷ ps)
            (drop_empty-word b (c ∷ []) hb.nonempty
              ∙ ap (λ ps. b ∷ ps) (drop_empty-word c [] hc.nonempty)))

trim_end_idem : (s : Text) → trim_end (trim_end s) ≡ trim_end s
unfolding trim_end
trim_end_idem [] = refl
trim_end_idem (c ∷ s) = trim_end-last c (trim_end s) (trim_end_idem s)
  where
    trim_end-last : (c : ℕ) (t : Text) → trim_end t ≡ t → trim_end (trim_last c t) ≡ trim_last c t
    trim_end-last c [] h = unfold trim_last in ground arith
    trim_end-last c (d ∷ t) h = unfold trim_last in rw h

-- The text does not begin with white space.
abbrev IsTrimmed : Text → Type 0
IsTrimmed [] = Unit
IsTrimmed (c ∷ s) = IsVisible c

trim_start-IsTrimmed : (s : Text) → IsTrimmed (trim_start s)
unfolding trim_start
trim_start-IsTrimmed [] = tt
trim_start-IsTrimmed (c ∷ s) = ground (arith, trim_start-IsTrimmed s)

trim_end-IsTrimmed : (s : Text) → IsTrimmed s → IsTrimmed (trim_end s)
unfolding trim_end
trim_end-IsTrimmed [] h = tt
trim_end-IsTrimmed (c ∷ s) h = first c (trim_end s) h
  where
    first : (c : ℕ) (t : Text) → IsVisible c → IsTrimmed (trim_last c t)
    first c [] h = unfold trim_last in rw h h
    first c (d ∷ t) h = unfold trim_last in h

trim_start_of_trimmed : (s : Text) → IsTrimmed s → trim_start s ≡ s
unfolding trim_start
trim_start_of_trimmed [] h = refl
trim_start_of_trimmed (c ∷ s) h = ground arith

-- Trimmed text stays as it is.
pub trim_idem : (s : Text) → trim (trim s) ≡ trim s
unfolding trim
trim_idem s =
    ap trim_end (
      trim_start_of_trimmed (trim_end (trim_start s))
        (trim_end-IsTrimmed (trim_start s) (trim_start-IsTrimmed s)))
    ∙ trim_end_idem (trim_start s)
