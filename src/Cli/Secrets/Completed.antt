-- ===== src/Cli/Secrets/Completed.antt =====
-- A row that was completed sets all that the vault needs.
use data_mate.Base.{
  ◌≡◌, refl, subst, Bool, true, false, not, ◌&&◌, List, [], ◌∷◌, Text, text_eq, text_eq_refl, all,
  Bool-cases, Option-cases, inl, inr, arith,
}
use data_mate.Config.Profiles.{is_set}
use data_mate.Vault.Secrets.{Patch, Field, name, has}
use data_mate.Cli.Rows.{refused, value, value-injective, invalid, >>=-value, Item, submitted}
use data_mate.Cli.Secrets.{
  assign, validate_candidate, Prompts, read_key, ask_each, ask_passphrase, complete_item,
}

-- Every key of the first patch is one of the second.
abbrev pub Keeps : Patch → Patch → Type 0
Keeps s t = (k : Text) → has k s ≡ true → has k t ≡ true

assign-has : (k v : Text) (s : Patch) → has k (assign k v s) ≡ true
unfolding has assign
assign-has k v [] = ground (arith, text_eq_refl k)
assign-has k v ((j, w) ∷ s) = elim (Bool-cases (text_eq j k)) [
  | inl here ↦ ground (arith, here)
  | inr apart ↦ ground (arith, apart, assign-has k v s)
]

assign-Keeps : (k v : Text) (s : Patch) → Keeps s (assign k v s)
unfolding has assign
assign-Keeps k v [] = λ i h. cc
assign-Keeps k v ((j, w) ∷ s) = λ i h. elim (Bool-cases (text_eq j k)) [
  | inl here ↦ ground (arith, here, h)
  | inr apart ↦ elim (Bool-cases (text_eq j i)) [
    | inl same ↦ ground (arith, apart, same)
    | inr other ↦ ground (arith, apart, other, assign-Keeps k v s i (ground (arith, other, h)))
  ]
]

ask_each-has :
    (u : Prompts) (ks : List Text) (s : Patch × Bool) (t : Patch × Bool)
    → ask_each u ks s ≡ value t
    → Keeps s.0 t.0 × (all (λ k. has k t.0) ks ≡ true)
unfolding ask_each all
ask_each-has u [] s t h =
    let same : s ≡ t = cc in (λ i g. subst (λ p. has i p.0 ≡ true) same g, refl)
ask_each-has u (k ∷ ks) (patch, b) t h = elim (Bool-cases (has k patch)) [
  | inl there ↦
      let rest = ask_each-has u ks (patch, b) t (rw (ask_each, there) at h) in
      (rest.0, ground (arith, rest.0 k there, rest.1))
  | inr missing ↦
      let a = >>=-value (u.ask k) _ (rw (ask_each, missing) at h) in
      let rest = ask_each-has u ks _ t a.2 in
      (
        λ i g. rest.0 i (assign-Keeps k a.0 patch i g),
        ground (arith, rest.0 k (assign-has k a.0 patch), rest.1),
      )
]

read_key-Keeps :
    (u : Prompts) (it : Item) (s : Patch × Bool)
    → read_key u it ≡ value s
    → Keeps it.secrets s.0
      × (is_set it.key_file ≡ true → has (name Field.ssh_private_key) s.0 ≡ true)
unfolding read_key
read_key-Keeps u it s h = elim (Bool-cases (is_set it.key_file)) [
  | inr plain ↦
      let same : (it.secrets, false) ≡ s = value-injective (rw (read_key, plain) at h) in
      (λ i g. subst (λ p. has i p.0 ≡ true) same g, λ g. cc)
  | inl listed ↦ elim (Option-cases u.key_file) [
    | inl lost ↦ let wrong : refused invalid ≡ value s = rw (read_key, listed, lost) at h in cc
    | inr (key, found) ↦
        let same : (assign (name Field.ssh_private_key) key it.secrets, true) ≡ s =
          value-injective (rw (read_key, listed, found) at h) in
        (
          λ i g.
              subst (λ p. has i p.0 ≡ true) same
                (assign-Keeps (name Field.ssh_private_key) key it.secrets i g),
          λ g.
              subst (λ p. has (name Field.ssh_private_key) p.0 ≡ true) same
                (assign-has (name Field.ssh_private_key) key it.secrets),
        )
  ]
]

ask_passphrase-Keeps :
    (interactive : Bool) (u : Prompts) (s : Patch × Bool) (patch : Patch)
    → ask_passphrase interactive u s ≡ value patch
    → Keeps s.0 patch
unfolding ask_passphrase
ask_passphrase-Keeps interactive u (old, b) patch h =
    elim (Bool-cases (b && not (has (name Field.ssh_key_passphrase) old))) [
      | inr known ↦
          let same : old ≡ patch = value-injective (rw (ask_passphrase, known) at h) in
          λ i g. subst (λ p. has i p ≡ true) same g
      | inl new ↦ elim (Bool-cases interactive) [
        | inl asks ↦
            let a = >>=-value u.passphrase _ (rw (ask_passphrase, new, asks) at h) in
            λ i g.
              subst (λ p. has i p ≡ true) (value-injective a.2)
                (assign-Keeps (name Field.ssh_key_passphrase) a.0 old i g)
        | inr quiet ↦
            let same : assign (name Field.ssh_key_passphrase) [] old ≡ patch =
              value-injective (rw (ask_passphrase, new, quiet) at h) in
            λ i g.
              subst (λ p. has i p ≡ true) same
                (assign-Keeps (name Field.ssh_key_passphrase) [] old i g)
      ]
    ]

-- What the completion of a submitted row gives.
pub record IsSupplied (utf8 : Text → Bool) (before after : Item) : Type 0 where
  pub keeps : Keeps before.secrets after.secrets
  pub required : all (λ k. has k after.secrets) before.required ≡ true
  pub key : is_set before.key_file ≡ true → has (name Field.ssh_private_key) after.secrets ≡ true
  pub same_row : after ≡ record before { secrets = after.secrets }
  pub valid : validate_candidate utf8 before.profile after.secrets ≡ value tt

all-Keeps :
    (ks : List Text) (s t : Patch)
    → Keeps s t
    → all (λ k. has k s) ks ≡ true
    → all (λ k. has k t) ks ≡ true
unfolding all
all-Keeps [] s t h g = refl
all-Keeps (k ∷ ks) s t h g = ground (arith, h k (ground arith), all-Keeps ks s t h (ground arith))

pub complete_item-IsSupplied :
    (utf8 : Text → Bool) (interactive : Bool) (u : Prompts) (it it' : Item)
    → submitted it ≡ true
    → complete_item utf8 interactive u it ≡ value it'
    → IsSupplied utf8 it it'
unfolding complete_item
complete_item-IsSupplied utf8 interactive u it it' live h =
    let a = >>=-value (read_key u it) _ (rw (complete_item, live) at h) in
    let b = >>=-value (ask_each u it.required a.0) _ a.2 in
    let c = >>=-value (ask_passphrase interactive u b.0) _ b.2 in
    let d = >>=-value (validate_candidate utf8 it.profile c.0) _ c.2 in
    let done : record it { secrets = c.0 } ≡ it' = value-injective d.2 in
    let first = read_key-Keeps u it a.0 a.1 in
    let second = ask_each-has u it.required a.0 b.0 b.1 in
    let third = ask_passphrase-Keeps interactive u b.0 c.0 c.1 in
    subst (λ i. IsSupplied utf8 it i) done
      (record {
        keeps = λ k g. third k (second.0 k (first.0 k g));
        required = all-Keeps it.required b.0.0 c.0 third second.1;
        key = λ g. third _ (second.0 _ (first.1 g));
        same_row = refl;
        valid = d.1;
      })
