-- ===== src/Policy/Workflows/Live/Carried.antt =====
-- What the two tests guarantee together.
use project_charybdis.Base.{
  ◌≡◌, refl, ap, true, &&_iff, List, [], ◌∷◌, Text, codes, text_eq_iff, pos, negsuc, ok,
}
use project_charybdis.Base.Errors.{returned, check_iff}
use project_charybdis.Json.{
  Json, null, bool, int, float, str, arr, obj, Items, nil, cons, subscript,
}
use project_charybdis.Json.Equal.{json_eq, items_eq, number}
use project_charybdis.Policy.Membership.{In}
use project_charybdis.Policy.Workflows.{Workflows}
use project_charybdis.Policy.Workflows.Carriers.{IsCarriedOnce, carriers_test-IsCarriedOnce}
use project_charybdis.Policy.Workflows.Live.{
  expected_contexts, text_items, check_member, policy_test, texts_of, required_contexts,
  policy_carriers_test,
}

json_eq-str : (v : Json) (t : Text) → json_eq v (str t) ≡ true → v ≡ str t
unfolding json_eq number
json_eq-str (str s) t h = ap str ((text_eq_iff s t).0 h)
json_eq-str null t h = absurd (cc)
json_eq-str (bool b) t h = absurd (cc)
json_eq-str (int (pos n)) t h = absurd (cc)
json_eq-str (int (negsuc n)) t h = absurd (cc)
json_eq-str (float x) t h = absurd (cc)
json_eq-str (arr xs) t h = absurd (cc)
json_eq-str (obj d) t h = absurd (cc)

items_eq-text_items :
    (xs : Items) (ts : List Text) → items_eq xs (text_items ts) ≡ true → xs ≡ text_items ts
unfolding items_eq
items_eq-text_items nil [] h = refl
items_eq-text_items nil (t ∷ ts) h = absurd (cc)
items_eq-text_items (cons v xs) [] h = absurd (cc)
items_eq-text_items (cons v xs) (t ∷ ts) h =
    let (same, rest) = (&&_iff (json_eq v (str t)) _).0 h in
    let first = json_eq-str v t same in let others = items_eq-text_items xs ts rest in cc

json_eq-text_items :
    (v : Json) (ts : List Text) → json_eq v (arr (text_items ts)) ≡ true → v ≡ arr (text_items ts)
unfolding json_eq number
json_eq-text_items (arr xs) ts h = ap arr (items_eq-text_items xs ts h)
json_eq-text_items null ts h = absurd (cc)
json_eq-text_items (bool b) ts h = absurd (cc)
json_eq-text_items (int (pos n)) ts h = absurd (cc)
json_eq-text_items (int (negsuc n)) ts h = absurd (cc)
json_eq-text_items (float x) ts h = absurd (cc)
json_eq-text_items (str s) ts h = absurd (cc)
json_eq-text_items (obj d) ts h = absurd (cc)

texts_of-text_items : (ts : List Text) → texts_of (text_items ts) ≡ ok ts
unfolding texts_of
texts_of-text_items [] = refl
texts_of-text_items (t ∷ ts) = rw (texts_of-text_items ts) refl

required_contexts-pinned :
    (policy : Json) → policy_test policy ≡ ok tt → required_contexts policy ≡ ok expected_contexts
unfolding policy_test check_member required_contexts
required_contexts-pinned policy h =
    let (_, _, h₁) =
      returned (check_member policy "repository" (str (codes "HomericIntelligence/Charybdis"))) h in
    let (_, _, h₂) = returned (check_member policy "target_branch" (str (codes "main"))) h₁ in
    let (_, pinned, _) =
      returned (check_member policy "required_contexts" (arr (text_items expected_contexts))) h₂ in
    let (found, read, same) = returned (subscript (codes "required_contexts") policy) pinned in
    let value =
      json_eq-text_items found expected_contexts
        ((check_iff (json_eq found (arr (text_items expected_contexts)))).0 same) in
    rw (read, value) (texts_of-text_items expected_contexts)

-- Where the test of the policy file and the check of the carriers pass, each of the sixteen contexts
-- that the script expects is emitted by exactly one job of the workflows, in a workflow that runs on
-- pushes to main, on pull requests against main and on the checks that the merge queue requests.
pub policy_carriers_test-IsCarriedOnce :
    (policy : Json) (ws : Workflows)
    → policy_test policy ≡ ok tt
    → policy_carriers_test policy ws ≡ ok tt
    → (c : Text) → In c expected_contexts
    → IsCarriedOnce c ws
unfolding policy_carriers_test
policy_carriers_test-IsCarriedOnce policy ws pinned h =
    carriers_test-IsCarriedOnce expected_contexts ws
      (rw (required_contexts-pinned policy pinned) at h)
