-- ===== src/Notebook/Token.antt =====
-- The token of a notebook from one run to the next: `reconcileNotebookSecret`.
use notebook_operator.Base.{◌≡◌, refl, subst, some, Bool-cases, inl, inr, arith}
use notebook_operator.Base.Text.{Text, codes}
use notebook_operator.Base.Dict.{lookup}
use notebook_operator.Exec.{Failure, Result, ok, err, is_not_found, ◌>>=◌, >>=-eq-ok}
use notebook_operator.Kube.Meta.{ObjectMeta, NamespacedName}
use notebook_operator.Kube.Objects.{Secret}
use notebook_operator.Api.NotebookLab.{NotebookLab}
use notebook_operator.Client.{Client, Machinery, secret, key_of}
use notebook_operator.Client.Laws.{IsLawful, KeepsNames}
use notebook_operator.Notebook.Children.{
  child_key, default_token, new_secret, token_of, owned, create_secret, notebook_secret_by,
  reconcile_notebook_secret,
}

-- The server keeps the entries of a new secret's `StringData` in its `Data`.
pub record IsMerging {Quantity : Type 0} (C : Client Quantity) : Type 0 where
  pub at :
      (s s' : Secret) (w : C.World) (k v : Text)
      → (C.create secret s w).0 ≡ ok s'
      → lookup k s.string_data ≡ some v
      → lookup k s'.data_map ≡ some v

ok-inj : {A : Type 0} {a b : A} → ok a ≡ ok b → a ≡ b
ok-inj h = cc

err-ne-ok : {A : Type 0} {a : A} {e : Failure} → ¬ (err e ≡ ok a)
err-ne-ok h = cc

module _ (M : Machinery) (C : Client M.Quantity) (L : IsLawful C) (K : KeepsNames M)
    (D : IsMerging C) (notebook : NotebookLab M.Quantity) where
  abbrev key : NamespacedName
  key = child_key notebook (codes "-secret")

  -- The token is in the notebook's secret.
  abbrev Stores : Text → C.World → Type 0
  Stores token w = (s : Secret) × (C.get secret key w ≡ ok s) × (token_of s ≡ token)

  token_of-lookup :
      (s : Secret) (token : Text)
      → lookup (codes "token") s.data_map ≡ some token
      → token_of s ≡ token
  unfolding token_of
  token_of-lookup s token h = rw (h, token_of)

  -- The new secret with its owner.
  abbrev owned_secret : ObjectMeta → Secret
  owned_secret m = record (new_secret notebook) { metadata = m }

  named_key :
      (m : ObjectMeta)
      → M.set_controller_reference notebook.metadata (new_secret notebook).metadata ≡ ok m
      → key_of M.Quantity secret (owned_secret m) ≡ key
  unfolding new_secret
  named_key m h = cc (K.name _ _ _ h, K.namespace _ _ _ h)

  create-Stores :
      (w : C.World) (token : Text)
      → (create_secret M C notebook w).0 ≡ ok token
      → Stores token (create_secret M C notebook w).1
  unfolding create_secret new_secret lookup ◌>>=◌
  create-Stores w token h =
      let (m, named, whole) =
        >>=-eq-ok (owned M C notebook (new_secret notebook).metadata) _ w token h in
      let (s, created, done) =
        >>=-eq-ok (C.create secret (owned_secret m)) _ w token (rw whole at h) in
      let same : default_token notebook ≡ token = ok-inj (rw (whole, done) at h) in
      (
        s,
        rw (whole, done)
            (subst (λ k. C.get secret k (C.create secret (owned_secret m) w).1 ≡ ok s)
              (named_key m named) (L.get-create_self secret (owned_secret m) s w created)),
        token_of-lookup s token
            (D.at (owned_secret m) s w (codes "token") token created (rw same (ground arith))),
      )

  by-Stores :
      (r : Result Secret) (w : C.World) (token : Text)
      → C.get secret key w ≡ r
      → (notebook_secret_by M C notebook r w).0 ≡ ok token
      → Stores token (notebook_secret_by M C notebook r w).1
  unfolding notebook_secret_by ◌>>=◌
  by-Stores (ok s) w token e h = (s, e, ok-inj h)
  by-Stores (err f) w token e h = elim (Bool-cases (is_not_found f)) [
    | inl b ↦ rw b (create-Stores w token (rw b at h))
    | inr b ↦ absurd (err-ne-ok (rw b at h))
  ]

  reads_stored :
      (w : C.World) (token : Text)
      → Stores token w
      → reconcile_notebook_secret M C notebook w ≡ (ok token, w)
  unfolding reconcile_notebook_secret notebook_secret_by ◌>>=◌
  reads_stored w token (s, e, t) = rw (e, t)

  -- A token that a run returns is the one that every later run reads from the secret, also when the
  -- first run has made the secret from it: it is written to `StringData` and read from `Data`. The
  -- client is assumed to obey its laws, owner references to leave names alone, and the server to keep
  -- in a new secret's data what its string data say.
  pub reconcile_notebook_secret_twice :
      (w : C.World) (token : Text)
      → (reconcile_notebook_secret M C notebook w).0 ≡ ok token
      → reconcile_notebook_secret M C notebook (reconcile_notebook_secret M C notebook w).1
        ≡ (ok token, (reconcile_notebook_secret M C notebook w).1)
  unfolding reconcile_notebook_secret ◌>>=◌
  reconcile_notebook_secret_twice w token h =
      reads_stored _ token (by-Stores (C.get secret key w) w token refl h)
