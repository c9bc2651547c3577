-- ===== src/Policy/Triggers/Laws.antt =====
-- `_inline_list` reads back what a workflow writes as a list: items in any quotes, with commas.
use project_charybdis.Base.{
  ℕ, ◌≡◌, ◌≢◌, refl, sym, ap, ◌∙◌, false, List, [], ◌∷◌, ◌++◌, map, append-nil, some, Text, codes,
  join, All, is_space, lstrip, rstrip, strip, ends_with-append, split_on, lstrip-append,
  rstrip-append_pad, rstrip-append_kept, ok,
}
use project_charybdis.Policy.Lines.{trim}
use project_charybdis.Policy.Triggers.{without_last, bracketed, list_items, inline_list}
use project_charybdis.Policy.Triggers.Items.{
  Item, IsItem, IsBlank, text, written, read_item, read_items, written-ne-nil, lstrip-written,
  rstrip-written,
}

pub without_last-append : (s : Text) (c : ℕ) → without_last (s ++ c ∷ []) ≡ s
unfolding without_last
without_last-append [] c = refl
without_last-append (d ∷ []) c = refl
without_last-append (d ∷ e ∷ s) c = ap (λ t. d ∷ t) (without_last-append (e ∷ s) c)

bracketed-shown : (s : Text) → bracketed (b'[' ∷ (s ++ b']' ∷ [])) ≡ some s
unfolding bracketed
bracketed-shown s = rw (ends_with-append s (codes "]"), without_last-append s b']') refl

trim-bracketed :
    (before after s : Text)
    → IsBlank before
    → IsBlank after
    → trim (before ++ ((b'[' ∷ (s ++ b']' ∷ [])) ++ after)) ≡ b'[' ∷ (s ++ b']' ∷ [])
unfolding trim strip lstrip
trim-bracketed before after s h k =
    rw
      (
        lstrip-append is_space before ((b'[' ∷ (s ++ b']' ∷ [])) ++ after) h,
        opens,
        rstrip-append_pad is_space (b'[' ∷ (s ++ b']' ∷ [])) after k,
      )
      (rstrip-append_kept is_space (b'[' ∷ s) (b']' ∷ []) (λ e. cc) closes)
  where
    opens : is_space b'[' ≡ false
    opens = unfold is_space in refl

    closes : rstrip is_space (b']' ∷ []) ≡ b']' ∷ []
    closes = unfold rstrip is_space in refl

list_items-eq : (s : Text) → s ≢ [] → list_items s ≡ map read_item (split_on b',' s)
list_items-eq [] ne = absurd (ne refl)
list_items-eq (c ∷ s) ne = refl

list_items-written :
    (items : List Item) → All IsItem items → list_items (trim (written items)) ≡ map text items
unfolding trim strip
list_items-written [] h = unfold join lstrip rstrip in refl
list_items-written (i ∷ items) (h, hs) =
    ap list_items (ap (rstrip is_space) unblanked ∙ rstrip-written i items h hs)
    ∙ list_items-eq (written (i ∷ items)) (written-ne-nil i items)
    ∙ read_items [] i items tt h hs
  where
    unblanked : lstrip is_space (written (i ∷ items)) ≡ written (i ∷ items)
    unblanked =
        sym (ap (lstrip is_space) (append-nil (written (i ∷ items))))
        ∙ lstrip-written i items [] h
        ∙ append-nil (written (i ∷ items))

inline_list-bracketed :
    (value body : Text)
    → bracketed (trim value) ≡ some body
    → inline_list value ≡ ok (list_items (trim body))
unfolding inline_list
inline_list-bracketed value body h = rw (inline_list, h) refl

-- A bracketed list of items, each bare or in quotes of one kind, with a comma and a blank between
-- and blanks round the brackets, is read as exactly these items. An item holds no blank, no quote
-- and no comma.
pub inline_list-written :
    (before after : Text) (items : List Item)
    → IsBlank before
    → IsBlank after
    → All IsItem items
    → inline_list (before ++ ((b'[' ∷ (written items ++ b']' ∷ [])) ++ after)) ≡ ok (map text items)
inline_list-written before after items h k items_ok =
    inline_list-bracketed _ (written items) (
      ap bracketed (trim-bracketed before after (written items) h k)
      ∙ bracketed-shown (written items))
    ∙ ap ok (list_items-written items items_ok)
