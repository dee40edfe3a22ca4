-- ===== src/Receiver/Channel/Kept.antt =====
-- In a channel, receipts go only under a voucher.
use mathlib.Core.List.{Perm, perm_append_comm, perm_append_singleton}
use mathlib.Core.List.Perm
use timeline_aggregation_pro.Base.{
  ℕ, ◌≤◌, ◌≡◌, refl, sym, ap, ◌∙◌, subst, true, not, Option, none, some, List, [], ◌∷◌, ◌++◌, All,
  All-append, All-map, Any, inl, inr, get_elem?, zero, suc, of_list, add, select, add-of_list,
  select-of_list, append_assoc, append-nil, leb→le,
}
use timeline_aggregation_pro.Core.Receipt.{SignedReceipt}
use timeline_aggregation_pro.Core.Error.{ReceiptAggregateVoucher}
use timeline_aggregation_pro.Receiver.Retained.{is_until, until, after, retain-split, All-retain}
use timeline_aggregation_pro.Receiver.Channel.{
  Channel, Move, stay, receive, charge, promise, accept, forget, deposit, Moves, start, next,
}

abbrev first_of : Option ReceiptAggregateVoucher → List ReceiptAggregateVoucher
first_of none = []
first_of (some v) = v ∷ []

-- The vouchers there have been: those expected so far, and the first one.
abbrev pub vouchers : Channel → Channel → List ReceiptAggregateVoucher
vouchers c d = d.expected ++ first_of c.last

-- A receipt that a voucher has covered.
abbrev pub IsCoveredBy : List ReceiptAggregateVoucher → SignedReceipt → Type 0
IsCoveredBy vs r = Any (λ (v : ReceiptAggregateVoucher). r.message.timestamp_ns ≤ v.timestamp_ns) vs

-- The stored receipts and those that are gone: together they are those at the start and those
-- taken in, and each one gone was covered by a voucher. The last voucher is one of those there have
-- been.
pub record Keeps (xs rs : List SignedReceipt) (c d : Channel) : Type 0 where
  pub kept : List SignedReceipt
  pub gone : List SignedReceipt
  pub stored : d.stored ≡ of_list kept
  pub together : Perm (xs ++ rs) (kept ++ gone)
  pub covered : All (IsCoveredBy (vouchers c d)) gone
  pub known : (v : ReceiptAggregateVoucher) → d.last ≡ some v → Any (λ w. w ≡ v) (vouchers c d)

Any-get_elem? {ℓ} :
    {A : Type ℓ} (P : A → Type 0) (xs : List A) (i : ℕ) {x : A}
    → get_elem? xs i ≡ some x
    → P x
    → Any P xs
Any-get_elem? P [] i e h = absurd (cc)
Any-get_elem? P (y ∷ xs) zero {x} e h = let same : x ≡ y = cc in inl (subst P same h)
Any-get_elem? P (y ∷ xs) (suc i) e h = inr (Any-get_elem? P xs i e h)

Any-append {ℓ} : {A : Type ℓ} (P : A → Type 0) (xs ys : List A) → Any P xs → Any P (xs ++ ys)
Any-append P [] ys h = absurd h
Any-append P (x ∷ xs) ys (inl h) = inl h
Any-append P (x ∷ xs) ys (inr h) = inr (Any-append P xs ys h)

Any-append_right {ℓ} : {A : Type ℓ} (P : A → Type 0) (xs ys : List A) → Any P ys → Any P (xs ++ ys)
Any-append_right P [] ys h = h
Any-append_right P (x ∷ xs) ys h = inr (Any-append_right P xs ys h)

Any-map {ℓ} :
    {A : Type ℓ} (P Q : A → Type 0) (xs : List A) → ((a : A) → P a → Q a) → Any P xs → Any Q xs
Any-map P Q [] f h = absurd h
Any-map P Q (x ∷ xs) f (inl h) = inl (f x h)
Any-map P Q (x ∷ xs) f (inr h) = inr (Any-map P Q xs f h)

module _ {xs rs : List SignedReceipt} {c d e : Channel} (k : Keeps xs rs c d) where
  -- The stored receipts, the last voucher and the vouchers expected stay.
  unmoved :
      e.stored ≡ d.stored → e.last ≡ d.last → e.expected ≡ d.expected → Keeps xs (rs ++ []) c e
  unmoved stored last expected = record {
    kept = k.kept;
    gone = k.gone;
    stored = stored ∙ k.stored;
    together = rw (append-nil rs) k.together;
    covered = rw expected k.covered;
    known = λ v h. rw expected (k.known v (sym last ∙ h));
  }

  received :
      (r : SignedReceipt) → e ≡ record d { stored = add r d.stored } → Keeps xs (rs ++ (r ∷ [])) c e
  received r h = rw h (record {
    kept = k.kept ++ (r ∷ []);
    gone = k.gone;
    stored = ap (add r) k.stored ∙ add-of_list r k.kept;
    together =
        Perm.trans (rw (append_assoc xs rs (r ∷ [])) at (Perm.append_right (r ∷ []) k.together)) (
          rw (append_assoc k.kept k.gone (r ∷ []), append_assoc k.kept (r ∷ []) k.gone)
            (Perm.append_left k.kept (perm_append_singleton r k.gone)));
    covered = k.covered;
    known = k.known;
  })

  promised :
      (v : ReceiptAggregateVoucher)
      → e.stored ≡ d.stored
      → e.last ≡ d.last
      → e.expected ≡ v ∷ d.expected
      → Keeps xs (rs ++ []) c e
  promised v stored last expected = record {
    kept = k.kept;
    gone = k.gone;
    stored = stored ∙ k.stored;
    together = rw (append-nil rs) k.together;
    covered = rw expected (All-map (IsCoveredBy (vouchers c d)) _ (λ r h. inr h) k.gone k.covered);
    known = λ w h. rw expected (inr (k.known w (sym last ∙ h)));
  }

  accepted :
      (i : ℕ) (v : ReceiptAggregateVoucher)
      → get_elem? d.expected i ≡ some v
      → e ≡ record d { last = some v }
      → Keeps xs (rs ++ []) c e
  accepted i v there h = rw h (record {
    kept = k.kept;
    gone = k.gone;
    stored = k.stored;
    together = rw (append-nil rs) k.together;
    covered = k.covered;
    known = λ w same.
        let eq : v ≡ w = cc in
        Any-append (λ u. u ≡ w) d.expected (first_of c.last)
          (Any-get_elem? (λ u. u ≡ w) d.expected i there eq);
  })

  forgotten :
      (v : ReceiptAggregateVoucher)
      → d.last ≡ some v
      → e ≡ record d { stored = select (λ r. not (is_until v.timestamp_ns r)) d.stored }
      → Keeps xs (rs ++ []) c e
  forgotten v last h =
      let t = v.timestamp_ns in
      rw h (record {
        kept = after t k.kept;
        gone = until t k.kept ++ k.gone;
        stored = ap (select (λ r. not (is_until t r))) k.stored ∙ select-of_list _ k.kept;
        together = rw (append-nil rs) (
            Perm.trans k.together (
              rw (append_assoc (after t k.kept) (until t k.kept) k.gone) at (
                Perm.append_right k.gone (
                  Perm.trans (Perm.symm (retain-split (is_until t) k.kept))
                    (perm_append_comm (until t k.kept) (after t k.kept))))));
        covered =
            All-append (IsCoveredBy (vouchers c d)) (until t k.kept) k.gone
              (All-map (λ r. is_until t r ≡ true) _
                (λ r early.
                  Any-map (λ w. w ≡ v) _ (vouchers c d) (λ w same. rw same (leb→le _ _ early))
                    (k.known v last))
                (until t k.kept) (All-retain (is_until t) k.kept))
              k.covered;
        known = k.known;
      })

Move-Keeps :
    {xs rs new : List SignedReceipt} {c d e : Channel}
    → Keeps xs rs c d
    → Move d e new
    → Keeps xs (rs ++ new) c e
Move-Keeps k (stay h) = unmoved k (rw h refl) (rw h refl) (rw h refl)
Move-Keeps k (receive r h) = received k r h
Move-Keeps k (charge n _ h) = unmoved k (rw h refl) (rw h refl) (rw h refl)
Move-Keeps k (promise v taken others _ _ _ _ _ _ h) =
    promised k v (rw h refl) (rw h refl) (rw h refl)
Move-Keeps k (accept i v there h) = accepted k i v there h
Move-Keeps k (forget v last h) = forgotten k v last h
Move-Keeps k (deposit n h) = unmoved k (rw h refl) (rw h refl) (rw h refl)

-- In a channel, receipts go only under a voucher: after any moves, the receipts stored at the start
-- and those taken in since are, up to order, those that are stored and those that are gone, and
-- each one that is gone is not later than some voucher, expected since or last at the start.
pub Moves-Keeps :
    {c d : Channel} {rs : List SignedReceipt} (xs : List SignedReceipt)
    → c.stored ≡ of_list xs
    → Moves c rs d
    → Keeps xs rs c d
Moves-Keeps {c} xs h start = record {
  kept = xs;
  gone = [];
  stored = h;
  together = Perm.rfl;
  covered = tt;
  known = λ v last. rw last (Any-append_right (λ w. w ≡ v) c.expected (v ∷ []) (inl refl));
}
Moves-Keeps xs h (next before move) = Move-Keeps (Moves-Keeps xs h before) move
