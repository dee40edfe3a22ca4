-- ===== src/Base/Bags.antt =====
-- Lists up to order, as a quotient.
use mathlib.Core.Path.{◌≡◌, refl}
use mathlib.Core.Bool.{Bool}
use mathlib.Core.List.{List, [], ◌∷◌, ◌++◌, Perm, Perm-prop}
use mathlib.Core.List.Perm
use mathlib.Core.Quot.{Setoid, Quotient, Quotient-set}
use mathlib.Core.Quot.Quotient
use timeline_aggregation_pro.Base.Lists.{retain}
use timeline_aggregation_pro.Base.Perms.{retain-perm}

module _ {ℓ} (A : Type ℓ) where
  abbrev up_to_order : Setoid {ℓ, ℓ} (List A)
  up_to_order = record {
    r = Perm;
    iseqv = record {
      refl = λ xs. Perm.rfl;
      symm = λ xs ys. Perm.symm;
      trans = λ xs ys zs. Perm.trans;
    };
  }

  abbrev pub Bag : Type ℓ
  Bag = Quotient up_to_order

module _ {ℓ} {A : Type ℓ} where
  abbrev pub of_list : List A → Bag A
  of_list = Quotient.mk (up_to_order A)

  -- Two lists make one bag exactly if one is a rearrangement of the other.
  pub of_list_perm : {xs ys : List A} → Perm xs ys → of_list xs ≡ of_list ys
  of_list_perm = Quotient.sound (up_to_order A)

  pub Perm-of_list : {xs ys : List A} → of_list xs ≡ of_list ys → Perm xs ys
  Perm-of_list = Quotient.exact (up_to_order A) (λ xs ys. Perm-prop)

  -- One more member, and the members that pass a test.
  unfoldable pub add : A → Bag A → Bag A
  add a =
      Quotient.lift (up_to_order A) (Quotient-set (up_to_order A)) (λ xs. of_list (xs ++ (a ∷ [])))
        (λ xs ys p. of_list_perm (Perm.append_right (a ∷ []) p))

  unfoldable pub select : (A → Bool) → Bag A → Bag A
  select t =
      Quotient.lift (up_to_order A) (Quotient-set (up_to_order A)) (λ xs. of_list (retain t xs))
        (λ xs ys p. of_list_perm (retain-perm t p))

  pub add-of_list : (a : A) (xs : List A) → add a (of_list xs) ≡ of_list (xs ++ (a ∷ []))
  unfolding add Quotient.lift
  add-of_list a xs = refl

  pub select-of_list : (t : A → Bool) (xs : List A) → select t (of_list xs) ≡ of_list (retain t xs)
  unfolding select Quotient.lift
  select-of_list t xs = refl
