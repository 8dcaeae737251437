-- ===== src/Client/Memory/Lawful.antt =====
-- That the client in memory meets the laws.
use notebook_operator.Base.{
  refl, ◌≡◌, subst, subst₂, ◌≢◌, inl, inr, true, Option, none, some, Option-cases, ap, sym, ◌∙◌, [],
  ◌∷◌, arith,
}
use notebook_operator.Base.Text.{Text, codes}
use notebook_operator.Base.Dict
use notebook_operator.Base.Dict.{Dict}
use notebook_operator.Exec.{Failure, api, ok, err}
use notebook_operator.Kube.Meta.{NamespacedName}
use notebook_operator.Client.Defs.{Kind, secret, Obj, metadata_of, key_of}
use notebook_operator.Client.Laws.{Apart, IsLawful, Exists}
use notebook_operator.Client.Tables.{
  find, find-remove, find-cons_ne, find-cons_self, Table, Tables, replace, replace_self,
  replace_frame, same_or_Apart,
}
use notebook_operator.Client.Memory.{
  exists_already, settle, found, get, has_all, without, create, overwrite, delete, create_or_update,
  memory,
}

ok-ne-err : {A : Type 0} {a : A} {e : Failure} → ok a ≢ err e
ok-ne-err h = cc

module _ (Quantity : Type 0) where
  create_frame :
      (k j : Kind) (o : Obj Quantity k) (key : NamespacedName) (w : Tables Quantity)
      → Apart k (key_of Quantity k o) j key
      → get Quantity j key (create Quantity k o w).1 ≡ get Quantity j key w
  unfolding create
  create_frame k j o key w h = elim (Option-cases (find (key_of Quantity k o) (w k))) [
    | inl e ↦
        rw (e, create)
          (ap (found Quantity)
            (replace_frame Quantity k j _ key _ w h (find-cons_ne _ key _ (w k))))
    | inr (x, e) ↦ rw (e, create)
  ]

  overwrite_frame :
      (k j : Kind) (at : NamespacedName) (n : Obj Quantity k) (key : NamespacedName)
      (w : Tables Quantity)
      → Apart k at j key
      → get Quantity j key (overwrite Quantity k at n w).1 ≡ get Quantity j key w
  unfolding overwrite
  overwrite_frame k j at n key w h = elim (Option-cases (find at (w k))) [
    | inl e ↦ rw (e, overwrite)
    | inr (x, e) ↦
        rw (e, overwrite)
          (ap (found Quantity) (
            replace_frame Quantity k j at key _ w h
              (λ ne. find-cons_ne at key n _ ne ∙ rw find-remove (ground arith))))
  ]

  delete_frame :
      (k j : Kind) (o : Obj Quantity k) (key : NamespacedName) (w : Tables Quantity)
      → Apart k (key_of Quantity k o) j key
      → get Quantity j key (delete Quantity k o w).1 ≡ get Quantity j key w
  unfolding delete
  delete_frame k j o key w h = elim (Option-cases (find (key_of Quantity k o) (w k))) [
    | inl e ↦ rw (e, delete)
    | inr (x, e) ↦
        rw (e, delete)
          (ap (found Quantity)
            (replace_frame Quantity k j _ key _ w h (λ ne. rw find-remove (ground arith))))
  ]

  get-create_self :
      (k : Kind) (o o' : Obj Quantity k) (w : Tables Quantity)
      → (create Quantity k o w).0 ≡ ok o'
      → get Quantity k (key_of Quantity k o) (create Quantity k o w).1 ≡ ok o'
  unfolding create
  get-create_self k o o' w h = elim (Option-cases (find (key_of Quantity k o) (w k))) [
    | inl e ↦ rw (e, create) (rw replace_self (rw find-cons_self (rw (e, create) at h)))
    | inr (x, e) ↦ absurd (ok-ne-err {e = exists_already} (sym h ∙ rw (e, create)))
  ]

  Exists-overwrite_self :
      (k : Kind) (at : NamespacedName) (n : Obj Quantity k) (w : Tables Quantity)
      → Exists (memory Quantity) k at w
      → Exists (memory Quantity) k at (overwrite Quantity k at n w).1
  unfolding overwrite
  Exists-overwrite_self k at n w (o, h) = elim (Option-cases (find at (w k))) [
    | inl e ↦ (o, rw (e, overwrite) h)
    | inr (x, e) ↦ (n, rw (e, overwrite) (rw (replace_self, find-cons_self)))
  ]

  Exists-overwrite :
      (k j : Kind) (at : NamespacedName) (n : Obj Quantity k) (key : NamespacedName)
      (w : Tables Quantity)
      → Exists (memory Quantity) j key w
      → Exists (memory Quantity) j key (overwrite Quantity k at n w).1
  Exists-overwrite k j at n key w h = elim (same_or_Apart k j at key) [
    | inl (p, q) ↦
        subst₂
          (λ i a.
            Exists (memory Quantity) i a w
            → Exists (memory Quantity) i a (overwrite Quantity k at n w).1)
          p q (Exists-overwrite_self k at n w) h
    | inr apart ↦ (h.0, overwrite_frame k j at n key w apart ∙ h.1)
  ]

  create_old_self :
      (k : Kind) (o x : Obj Quantity k) (w : Tables Quantity)
      → get Quantity k (key_of Quantity k o) w ≡ ok x
      → get Quantity k (key_of Quantity k o) (create Quantity k o w).1 ≡ ok x
  unfolding create
  create_old_self k o x w h = elim (Option-cases (find (key_of Quantity k o) (w k))) [
    | inl e ↦ absurd (ok-ne-err {e = api true (codes "not found")} (sym h ∙ rw e))
    | inr (y, e) ↦ rw (e, create) h
  ]

  create_old :
      (k j : Kind) (o : Obj Quantity k) (key : NamespacedName) (x : Obj Quantity j)
      (w : Tables Quantity)
      → get Quantity j key w ≡ ok x
      → get Quantity j key (create Quantity k o w).1 ≡ ok x
  create_old k j o key x w h = elim (same_or_Apart k j (key_of Quantity k o) key) [
    | inl (p, q) ↦
        subst₂
          (λ i a.
            (y : Obj Quantity i)
            → get Quantity i a w ≡ ok y
            → get Quantity i a (create Quantity k o w).1 ≡ ok y)
          p q (λ y. create_old_self k o y w) x h
    | inr apart ↦ create_frame k j o key w apart ∙ h
  ]

  create_or_update_frame :
      (k j : Kind) (o : Obj Quantity k) (f : Obj Quantity k → Obj Quantity k) (key : NamespacedName)
      (w : Tables Quantity)
      → ((x : Obj Quantity k) → key_of Quantity k (f x) ≡ key_of Quantity k x)
      → Apart k (key_of Quantity k o) j key
      → get Quantity j key (create_or_update Quantity k o f w).1 ≡ get Quantity j key w
  unfolding create_or_update
  create_or_update_frame k j o f key w names apart =
      elim (Option-cases (find (key_of Quantity k o) (w k))) [
        | inl e ↦ rw (e, create_or_update) (create_frame k j (f o) key w (rw (names o) apart))
        | inr (x, e) ↦
            rw (e, create_or_update) (overwrite_frame k j (key_of Quantity k o) (f x) key w apart)
      ]

  settle_lem : (k : Kind) (o : Obj Quantity k) → k ≢ secret → settle Quantity k o ≡ o
  unfolding settle
  settle_lem secret o h = absurd (h refl)
  settle_lem _ o h = refl

  created :
      (k : Kind) (o : Obj Quantity k) (w : Tables Quantity)
      → k ≢ secret
      → find (key_of Quantity k o) (w k) ≡ none
      → (create Quantity k o w).0 ≡ ok o
  unfolding create
  created k o w plain e = rw (e, create) (ap ok (settle_lem k o plain))

  create_or_update_self :
      (k : Kind) (o o' : Obj Quantity k) (f : Obj Quantity k → Obj Quantity k) (w : Tables Quantity)
      → k ≢ secret
      → ((x : Obj Quantity k) → key_of Quantity k (f x) ≡ key_of Quantity k x)
      → (create_or_update Quantity k o f w).0 ≡ ok o'
      → (x : Obj Quantity k) × (get Quantity k
            (key_of Quantity k o)
            (create_or_update Quantity k o f w).1
          ≡ ok (f x))
  unfolding create_or_update create overwrite
  create_or_update_self k o o' f w plain names h =
      elim (Option-cases (find (key_of Quantity k o) (w k))) [
        | inl e ↦ (
          o,
          rw (e, create_or_update)
              (subst (λ key. get Quantity k key (create Quantity k (f o) w).1 ≡ ok (f o)) (names o)
                (get-create_self k (f o) (f o) w
                  (created k (f o) w plain (ap (λ key. find key (w k)) (names o) ∙ e)))),
        )
        | inr (x, e) ↦
            (x, rw (e, create_or_update, e, overwrite) (rw (replace_self, find-cons_self)))
      ]

  delete_all_of_frame :
      (k j : Kind) (ns : Text) (labels : Dict Text) (key : NamespacedName) (w : Tables Quantity)
      → k ≢ j
      → get Quantity j key (replace Quantity k (without Quantity k ns labels (w k)) w)
        ≡ get Quantity j key w
  delete_all_of_frame k j ns labels key w ne =
      ap (found Quantity) (replace_frame Quantity k j key key _ w (inl ne) (λ h. absurd (h refl)))

  found-some : {A : Type 0} (o : Option A) (x : A) → found Quantity o ≡ ok x → o ≡ some x
  found-some none x h = absurd (ok-ne-err {e = api true (codes "not found")} (sym h))
  found-some (some y) x h = cc

  has_all_lem :
      (labels : Dict Text) (label v : Text)
      → Dict.lookup label labels ≡ some v
      → has_all Quantity labels ((label, v) ∷ []) ≡ true
  unfolding has_all
  has_all_lem labels label v e = ground arith

  -- What `without` keeps under a name of the namespace does not have the label.
  without-lookup :
      (k : Kind) (ns label v : Text) (key : NamespacedName) (x : Obj Quantity k)
      (t : Table Quantity k)
      → key.namespace ≡ ns
      → find key (without Quantity k ns ((label, v) ∷ []) t) ≡ some x
      → Dict.lookup label (metadata_of Quantity k x).labels ≢ some v
  unfolding without has_all find
  without-lookup k ns label v key x [] at h = cc
  without-lookup k ns label v key x ((key', o) ∷ t) at h = λ e.
      let rest : find key (without Quantity k ns ((label, v) ∷ []) t) ≡ some x → ⊥ =
        λ g. without-lookup k ns label v key x t at g e in
      ground (arith, e, rest, has_all_lem (metadata_of Quantity k x).labels label v e)

  -- The assumptions on a client can be met.
  pub memory-IsLawful : IsLawful (memory Quantity)
  memory-IsLawful = record {
    get-create_ne = create_frame;
    get-create_self = get-create_self;
    get-create_old = create_old;
    get-patch_ne = λ k j o n key w h. overwrite_frame k j (key_of Quantity k o) n key w h;
    Exists-patch = λ k j o n key w h. Exists-overwrite k j (key_of Quantity k o) n key w h;
    get-update_ne = λ k j o key w h. overwrite_frame k j (key_of Quantity k o) o key w h;
    get-update_status_ne = λ k j o key w h. overwrite_frame k j (key_of Quantity k o) o key w h;
    Exists-update_status = λ k j o key w h. Exists-overwrite k j (key_of Quantity k o) o key w h;
    get-create_or_update_ne = λ k j o f key w. create_or_update_frame k j o f key w;
    get-create_or_update_self = create_or_update_self;
    get-delete_all_of_ne = delete_all_of_frame;
    delete_all_of-IsLeaving = λ k ns label v key x w done at h labelled. absurd (
        without-lookup k ns label v key x (w k) at (found-some _ x (rw replace_self at h))
          labelled);
    get-delete_ne = delete_frame;
  }
