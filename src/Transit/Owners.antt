-- ===== src/Transit/Owners.antt =====
-- What the calls of one user that change named keys leave of the rows of another.
use mini_vault.Base.{
  ℕ, ◌≤◌, ◌≡◌, refl, Bool, false, ◌&&◌, some, Text, arith, ◌==◌, same, keep, All, All-imp,
  All-always, All-keep, keep-All, keep-append_none, keep-update, UniqueBy-apart, top_key,
  top_key-All,
}
use mini_vault.Db.{World, Time, TransitKey, TransitKeyVersion}
use mini_vault.Transit.{key_of, versions_of}
use mini_vault.Transit.Rotation.{rekeyed, Rekeyed}
use mini_vault.Transit.Calls.{UniqueKeys, Grown}
use mini_vault.Transit.Effects.{retired, Retired}
use mini_vault.Transit.Serving.{key_of_sound}

abbrev pub mine : Text → TransitKey → Bool
mine email k = same k.owner_email email

-- The keys of this owner are the same, and so are their versions and the key in memory.
abbrev pub IsAlike : Text → World → World → Type 0
IsAlike email w u =
    (keep (mine email) u.work.transit_keys ≡ keep (mine email) w.work.transit_keys)
    × All
        (λ (k : TransitKey).
          versions_of k.id u.work.transit_versions ≡ versions_of k.id w.work.transit_versions)
        (keep (mine email) w.work.transit_keys)
    × (u.dek ≡ w.dek)

module _ (email other : Text) (apart : same other email ≡ false) (w u : World) where
  pub IsAlike-same : u ≡ w → IsAlike email w u
  IsAlike-same e =
      rw e (refl, All-always _ (λ k. refl) (keep (mine email) w.work.transit_keys), refl)

  pub Grown-IsAlike : Grown other w u → IsAlike email w u
  Grown-IsAlike (ks, vs, keys, versions, memory, _, owned, numbered) =
      let top : ℕ = top_key (λ (k : TransitKey). k.id) w.work.transit_keys in
      (
        rw keys (
            keep-append_none (mine email) w.work.transit_keys ks
              (All-imp _ _ (λ (k : TransitKey) hk. rw hk apart) ks owned)),
        rw versions (
            All-keep (mine email) _ w.work.transit_keys (
              All-imp (λ (k : TransitKey). k.id ≤ top) _
                (λ (k : TransitKey) below.
                  keep-append_none (λ (v : TransitKeyVersion). v.transit_key_id == k.id)
                    w.work.transit_versions vs
                    (All-imp _ _ (λ (v : TransitKeyVersion) hv. ground arith) vs numbered))
                w.work.transit_keys
                (top_key-All (λ (k : TransitKey). k.id) top w.work.transit_keys (omega arith)))),
        memory,
      )

  module _ (name : Text) (k : TransitKey) (unique : UniqueKeys w)
      (there : key_of other name w.work.transit_keys ≡ some k) where
    distinct_rows : All (λ x. (mine email x && (x.id == k.id)) ≡ false) w.work.transit_keys
    unfolding key_of
    distinct_rows =
        let (owner, _) = key_of_sound other name w.work.transit_keys k there in
        UniqueBy-apart (λ (x : TransitKey). x.id)
          (λ x. same x.owner_email other && same x.key_name name) (mine email) w.work.transit_keys k
          unique there (rw owner apart)

    pub Rekeyed-IsAlike : Rekeyed k w u → IsAlike email w u
    Rekeyed-IsAlike (n, m, added, keys, versions, memory, owned) = (
      rw keys (
          keep-update (mine email) (λ x. x.id == k.id) (rekeyed n m) (λ x. refl) w.work.transit_keys
            distinct_rows),
      rw versions (
          All-imp _ _
            (λ (x : TransitKey) differ.
              keep-append_none (λ (v : TransitKeyVersion). v.transit_key_id == x.id)
                w.work.transit_versions added
                (All-imp _ _ (λ (v : TransitKeyVersion) hv. ground arith) added owned))
            (keep (mine email) w.work.transit_keys)
            (keep-All (mine email) (λ x. x.id == k.id) w.work.transit_keys distinct_rows)),
      memory,
    )

    pub Retired-IsAlike : (now : Time) → Retired now k w u → IsAlike email w u
    Retired-IsAlike now (keys, versions, memory) = (
      rw keys (
          keep-update (mine email) (λ x. x.id == k.id) (retired now) (λ x. refl) w.work.transit_keys
            distinct_rows),
      rw versions (All-always _ (λ x. refl) (keep (mine email) w.work.transit_keys)),
      memory,
    )
