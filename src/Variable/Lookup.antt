-- ===== src/Variable/Lookup.antt =====
-- `lookup_variable` along a list of sets that ends.
use make.Text.{Text}
use make.Variable.{Variable, find}
use make.Variable.Scopes.{SetList, Scopes, seen, first_seen, lookup_loop, lookup_variable}
use make.Prelude.{
  ℕ, zero, suc, ◌≤◌, ◌≡◌, ◌⊎◌, refl, sym, ap, ◌∙◌, Bool, true, false, not, ◌&&◌, ◌||◌, Option, none,
  some, List, [], ◌∷◌, length, if◌then◌else◌, Returns, inl, inr, Bool-cases, arith,
}

-- The nodes of a list of sets, up to its end.
pub data Chain (s : Scopes) : Option ℕ → List SetList → Type 0 where
  end : Chain s none []
  link :
      (l : ℕ) (nodes : List SetList)
      → Chain s (s.lists l).next nodes
      → Chain s (some l) (s.lists l ∷ nodes)

-- Whether a set is seen past the links before it that lead to a parent target.
abbrev pub Hidden : Text → Scopes → Bool → List SetList → Type 0
Hidden name s is_parent [] = Unit
Hidden name s is_parent (n ∷ nodes) =
    ((v : Variable)
      → find name (s.sets n.set) ≡ some v
      → (is_parent ≡ true) × (v.private_var ≡ true))
    × Hidden name s (is_parent || n.next_is_parent) nodes

-- The variable stands in the first set that has one of the name that is not private, or that no
-- link to a parent leads to.
abbrev pub IsNearest :
    (Variable → Variable) → Text → Scopes → Bool → List SetList → Option Variable → Type 0
IsNearest special name s is_parent nodes none = Hidden name s is_parent nodes
IsNearest special name s is_parent [] (some w) = ⊥
IsNearest special name s is_parent (n ∷ nodes) (some w) =
    ((v : Variable) × (find name (s.sets n.set) ≡ some v)
      × (is_parent ≡ true → v.private_var ≡ false)
      × (w ≡ (if v.special then special v else v)))
    ⊎ (((v : Variable)
          → find name (s.sets n.set) ≡ some v
          → (is_parent ≡ true) × (v.private_var ≡ true))
        × IsNearest special name s (is_parent || n.next_is_parent) nodes (some w))

private_of : Option Variable → Bool
private_of none = false
private_of (some v) = v.private_var

Looks :
    (Variable → Variable) → Text → Scopes → Bool → List SetList → Option (Option Variable) → Type 0
Looks special name s is_parent nodes r =
    (o : Option Variable) × (r ≡ some o) × IsNearest special name s is_parent nodes o

module _ (special : Variable → Variable) (name : Text) (s : Scopes) where
  lookup_loop-Looks :
      (fuel : ℕ) (start : Option ℕ) (is_parent : Bool) (nodes : List SetList)
      → Chain s start nodes
      → length nodes ≤ fuel
      → Looks special name s is_parent nodes (lookup_loop fuel special name start is_parent s)
  unfolding lookup_loop Looks seen private_of
  lookup_loop-Looks fuel _ is_parent _ end h = (none, refl, tt)
  lookup_loop-Looks zero _ is_parent _ (link l nodes c) h = absurd (omega arith)
  lookup_loop-Looks (suc fuel) _ is_parent _ (link l nodes c) h =
      go (find name (s.sets list.set)) refl
        (lookup_loop-Looks fuel list.next (is_parent || list.next_is_parent) nodes c (omega arith))
    where
      list : SetList
      list = s.lists l

      later : Option (Option Variable)
      later = lookup_loop fuel special name list.next (is_parent || list.next_is_parent) s

      skip :
          (f : Option Variable)
          → find name (s.sets list.set) ≡ f
          → seen special is_parent f ≡ none
          → lookup_loop (suc fuel) special name (some l) is_parent s ≡ later
      skip f e unseen =
          ap (λ x. first_seen (seen special is_parent x) later) e
          ∙ ap (λ x. first_seen x later) unseen

      pass :
          (f : Option Variable)
          → find name (s.sets list.set) ≡ f
          → seen special is_parent f ≡ none
          → ((v : Variable) → f ≡ some v → (is_parent ≡ true) × (v.private_var ≡ true))
          → Looks special name s (is_parent || list.next_is_parent) nodes later
          → Looks special name s is_parent
              (list ∷ nodes)
              (lookup_loop (suc fuel) special name (some l) is_parent s)
      pass f e unseen private (none, run, hidden) =
          (none, skip f e unseen ∙ run, (λ v g. private v (sym e ∙ g), hidden))
      pass f e unseen private (some w, run, near) =
          (some w, skip f e unseen ∙ run, inr (λ v g. private v (sym e ∙ g), near))

      go :
          (f : Option Variable)
          → find name (s.sets list.set) ≡ f
          → Looks special name s (is_parent || list.next_is_parent) nodes later
          → Looks special name s is_parent
              (list ∷ nodes)
              (lookup_loop (suc fuel) special name (some l) is_parent s)
      go none e r = pass none e refl (λ v no_variable. absurd cc) r
      go (some v) e r = elim (Bool-cases (is_parent && v.private_var)) [
        | inl out ↦
            let parent : is_parent ≡ true = ground arith in
            let private : v.private_var ≡ true = ground arith in
            let unseen : seen special is_parent (some v) ≡ none = rw (parent, private) refl in
            pass (some v) e unseen
              (λ w same. (parent, ap (λ (x : Option Variable). private_of x) (sym same) ∙ private))
              r
        | inr visible ↦
            let open_to : (not is_parent || not v.private_var) ≡ true = ground arith in
            (
              some (if v.special then special v else v),
              ap (λ x. first_seen (seen special is_parent x) later) e ∙ rw open_to refl,
              inl (v, e, (λ parent. ground arith), refl),
            )
      ]

-- The length of the list is fuel enough for `lookup_variable`: it gives the variable of the first
-- set on the list with one of the name, where private variables behind a link to a parent target do
-- not count, and nothing when there is none.
pub lookup_variable-IsNearest :
    (special : Variable → Variable) (name : Text) (s : Scopes) (nodes : List SetList)
    → Chain s s.current_variable_set_list nodes
    → Returns (lookup_variable (length nodes) special name s) (IsNearest special name s false nodes)
unfolding lookup_variable Looks
lookup_variable-IsNearest special name s nodes c =
    lookup_loop-Looks special name s (length nodes) s.current_variable_set_list false nodes c
      (omega arith)
