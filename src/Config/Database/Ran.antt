-- ===== src/Config/Database/Ran.antt =====
-- The parts of a transaction of internal/config/database.go that reached its commit.
use data_mate.Base.{
  ℕ, ◌+◌, ◌≤◌, ◌≡◌, refl, sym, ap, subst, Bool, true, false, ◌&&◌, Option, none, some, List, [],
  leb, leb→le, ok, state, >>=-eq-ok, guard-ok, ok-injective,
}
use data_mate.Config.Profile.{Profile}
use data_mate.Config.Profiles.{Codec}
use data_mate.Config.Database.{Db, Installation, Ciphertext, payloads, max_total}
use data_mate.Config.Database.Publish.{
  Statement, begin, delete_profiles, delete_orphans, sum_payloads, next_generation, replace_bundles,
  insert_profiles, delete_unreferenced, advance, transaction,
}

&&-right : (a b : Bool) → (a && b) ≡ true → b ≡ true
&&-right true b h = h
&&-right false b h = cc

advance-ok :
    (o : Option Installation) {i : Installation}
    → advance o ≡ ok i
    → (b : Installation) × (o ≡ some b) × (i ≡ record b { generation = b.generation + 1 })
unfolding advance
advance-ok none h = cc
advance-ok (some b) h = (b, refl, sym (ok-injective h))

module _ (codec : Codec) (runs : Statement → Bool) (db : Db) (ps : List Profile)
    (replacements : List Ciphertext) where
  pub record Ran (next : Db) (g : ℕ) : Type 0 where
    pub bs : List Ciphertext
    pub replaced : replace_bundles runs db.bundles replacements ≡ ok bs
    pub inserted : insert_profiles codec runs [] ps ≡ ok next.profiles
    pub kept : next.bundles ≡ delete_unreferenced next.profiles bs
    pub small : payloads next.bundles ≤ max_total
    pub before : Installation
    pub found : db.installation ≡ some before
    pub generation : g ≡ before.generation + 1
    pub installed : next.installation ≡ some (record before { generation = before.generation + 1 })
    pub same_keyset : next.keyset ≡ db.keyset

  pub transaction-Ran :
      {out : Db × ℕ} → transaction codec runs db ps replacements ≡ ok out → Ran out.0 out.1
  unfolding transaction
  transaction-Ran {out} h =
      let begun = (guard-ok (runs begin && runs delete_profiles) state _ h).1 in
      let (bs, replaced, h₁) = >>=-eq-ok (replace_bundles runs db.bundles replacements) _ begun in
      let (rows, inserted, h₂) = >>=-eq-ok (insert_profiles codec runs [] ps) _ h₁ in
      let h₃ = (guard-ok (runs delete_orphans) state _ h₂).1 in
      let kept = delete_unreferenced rows bs in
      let (small, h₄) = guard-ok (runs sum_payloads && leb (payloads kept) max_total) state _ h₃ in
      let h₅ = (guard-ok (runs next_generation) state _ h₄).1 in
      let (i, advanced, h₆) = >>=-eq-ok (advance db.installation) _ h₅ in
      let (b, found, next) = advance-ok db.installation advanced in
      subst (λ (o : Db × ℕ). Ran o.0 o.1) (ok-injective h₆)
        (record {
          bs = bs;
          replaced = replaced;
          inserted = inserted;
          kept = refl;
          small = leb→le (payloads kept) max_total (&&-right (runs sum_payloads) _ small);
          before = b;
          found = found;
          generation = ap (λ (j : Installation). j.generation) next;
          installed = ap some next;
          same_keyset = refl;
        })
