-- ===== src/Policy/Triggers/Items.antt =====
-- Items of a list as a workflow writes them, and how one of them is read.
use project_charybdis.Base.{
  ℕ, ◌≡◌, ◌≢◌, refl, sym, ap, ◌∙◌, ◌⊎◌, inl, inr, true, false, List, [], ◌∷◌, ◌++◌, map,
  append_assoc, Text, codes, join, All, All-append, All-map_implies, is_space, lstrip, rstrip,
  strip, split_on, split_on-plain, split_on-append, lstrip-append, rstrip-append_pad,
  rstrip-append_kept, rstrip-kept, arith,
}
use project_charybdis.Policy.Lines.{is_quote, unquote, trim}

-- An item as it is written, with what quotes it on both sides.
pub record Item : Type 0 where
  pub quote : Text
  pub first : ℕ
  pub rest : Text

abbrev pub text : Item → Text
text i = i.first ∷ i.rest

abbrev pub shown : Item → Text
shown i = i.quote ++ (text i ++ i.quote)

-- No blank, no quote and no comma.
abbrev pub IsItemChar : ℕ → Type 0
IsItemChar c = (is_space c ≡ false) × (is_quote c ≡ false) × (c ≢ b',')

abbrev pub IsQuote : Text → Type 0
IsQuote q = (q ≡ []) ⊎ (q ≡ b'"' ∷ []) ⊎ (q ≡ 39 ∷ [])

pub record IsItem (i : Item) : Type 0 where
  pub quoted : IsQuote i.quote
  pub plain : All IsItemChar (text i)

abbrev pub IsBlank : Text → Type 0
IsBlank s = All (λ c. is_space c ≡ true) s

-- What the readers of a list ask of a character.
abbrev IsSolid : ℕ → Type 0
IsSolid c = (is_space c ≡ false) × (c ≢ b',')

quote-IsSolid : (q : Text) → IsQuote q → All IsSolid q × All (λ c. is_quote c ≡ true) q
unfolding is_space
quote-IsSolid q (inl e) = rw e (tt, tt)
quote-IsSolid q (inr (inl e)) = rw e (((refl, omega arith), tt), (refl, tt))
quote-IsSolid q (inr (inr e)) = rw e (((refl, omega arith), tt), (refl, tt))

shown-IsSolid : (i : Item) → IsItem i → All IsSolid (shown i)
shown-IsSolid i h =
    let q = (quote-IsSolid i.quote h.quoted).0 in
    All-append IsSolid i.quote _ q (
      All-append IsSolid (text i) i.quote
        (All-map_implies IsItemChar IsSolid (λ c k. (k.0, k.2)) (text i) h.plain) q)

unspaced : (s : Text) → All IsSolid s → All (λ c. is_space c ≡ false) s
unspaced s h = All-map_implies IsSolid _ (λ c k. k.0) s h

shown-ne-nil : (i : Item) → shown i ≢ []
shown-ne-nil i = quoted_ne i.quote
  where
    quoted_ne : (q : Text) → q ++ (text i ++ i.quote) ≢ []
    quoted_ne [] e = cc
    quoted_ne (c ∷ q) e = cc

lstrip-IsSolid : (s t : Text) → s ≢ [] → All IsSolid s → lstrip is_space (s ++ t) ≡ s ++ t
unfolding lstrip
lstrip-IsSolid [] t ne h = absurd (ne refl)
lstrip-IsSolid (c ∷ s) t ne h = rw h.0.0 refl

trim-IsSolid : (pad s : Text) → IsBlank pad → s ≢ [] → All IsSolid s → trim (pad ++ s) ≡ s
unfolding trim strip lstrip
trim-IsSolid pad [] blank ne h = absurd (ne refl)
trim-IsSolid pad (c ∷ s) blank ne h =
    rw (lstrip-append is_space pad (c ∷ s) blank, h.0.0)
      (rstrip-kept is_space (c ∷ s) (unspaced (c ∷ s) h))

unquote-shown : (i : Item) → IsItem i → unquote (shown i) ≡ text i
unfolding unquote strip lstrip
unquote-shown i h =
    let q = (quote-IsSolid i.quote h.quoted).1 in
    rw
      (
        lstrip-append is_quote i.quote (text i ++ i.quote) q,
        h.plain.0.1,
        rstrip-append_pad is_quote (text i) i.quote q,
      )
      (rstrip-kept is_quote (text i)
        (All-map_implies IsItemChar (λ c. is_quote c ≡ false) (λ c k. k.1) (text i) h.plain))

abbrev pub read_item : Text → Text
read_item item = unquote (trim item)

-- One item is read back, with blanks in front of it.
read_item-shown :
    (pad : Text) (i : Item) → IsBlank pad → IsItem i → read_item (pad ++ shown i) ≡ text i
read_item-shown pad i blank h =
    ap unquote (trim-IsSolid pad (shown i) blank (shown-ne-nil i) (shown-IsSolid i h))
    ∙ unquote-shown i h

blank_ne_comma : (c : ℕ) → is_space c ≡ true → c ≢ b','
unfolding is_space
blank_ne_comma c h e = ground arith

no_comma : (pad : Text) (i : Item) → IsBlank pad → IsItem i → All (λ c. c ≢ b',') (pad ++ shown i)
no_comma pad i blank h =
    All-append (λ c. c ≢ b',') pad (shown i) (All-map_implies _ _ blank_ne_comma pad blank)
      (All-map_implies IsSolid _ (λ c k. k.1) (shown i) (shown-IsSolid i h))

-- The items between the brackets.
abbrev pub written : List Item → Text
written items = join (codes ", ") (map shown items)

one_space : IsBlank (codes " ")
unfolding is_space
one_space = (refl, tt)

pub read_items :
    (pad : Text) (i : Item) (items : List Item)
    → IsBlank pad
    → IsItem i
    → All IsItem items
    → map read_item (split_on b',' (pad ++ written (i ∷ items))) ≡ text i ∷ map text items
unfolding join
read_items pad i [] blank h hs =
    rw (split_on-plain b',' (pad ++ shown i) (no_comma pad i blank h))
      (ap (λ t. t ∷ []) (read_item-shown pad i blank h))
read_items pad i (j ∷ items) blank h (k, hs) =
    ap (λ s. map read_item (split_on b',' s))
      (sym (append_assoc pad (shown i) (codes ", " ++ written (j ∷ items))))
    ∙ ap (map read_item) (
        split_on-append b',' (pad ++ shown i) (codes " " ++ written (j ∷ items))
          (no_comma pad i blank h))
    ∙ rw (read_item-shown pad i blank h)
        (ap (λ ts. text i ∷ ts) (read_items (codes " ") j items one_space k hs))

pub written-ne-nil : (i : Item) (items : List Item) → written (i ∷ items) ≢ []
unfolding join
written-ne-nil i [] = shown-ne-nil i
written-ne-nil i (j ∷ items) = append_ne (shown i) _ (shown-ne-nil i)
  where
    append_ne : (s t : Text) → s ≢ [] → s ++ t ≢ []
    append_ne [] t ne e = ne refl
    append_ne (c ∷ s) t ne e = cc

-- The items neither begin nor end with a blank.
pub lstrip-written :
    (i : Item) (items : List Item) (t : Text)
    → IsItem i
    → lstrip is_space (written (i ∷ items) ++ t) ≡ written (i ∷ items) ++ t
unfolding join
lstrip-written i [] t h = lstrip-IsSolid (shown i) t (shown-ne-nil i) (shown-IsSolid i h)
lstrip-written i (j ∷ items) t h =
    rw (append_assoc (shown i) (codes ", " ++ written (j ∷ items)) t)
      (lstrip-IsSolid (shown i) _ (shown-ne-nil i) (shown-IsSolid i h))

pub rstrip-written :
    (i : Item) (items : List Item)
    → IsItem i
    → All IsItem items
    → rstrip is_space (written (i ∷ items)) ≡ written (i ∷ items)
unfolding join
rstrip-written i [] h hs = rstrip-kept is_space (shown i) (unspaced (shown i) (shown-IsSolid i h))
rstrip-written i (j ∷ items) h (k, hs) =
    rstrip-append_kept is_space (shown i) (codes ", " ++ written (j ∷ items)) (λ e. cc)
      (rstrip-append_kept is_space (codes ", ") (written (j ∷ items)) (written-ne-nil j items)
        (rstrip-written j items k hs))
