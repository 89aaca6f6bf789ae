-- ===== src/Transit/Calls.antt =====
-- Runs of the calls of TransitService that change the named keys, and how the tables may grow.
use mini_vault.Base.{
  ℕ, ◌+◌, ◌≤◌, ◌<◌, ◌≡◌, refl, sym, List, [], ◌∷◌, ◌++◌, Text, Bytes, arith, All, append-nil,
  UniqueBy, UniqueBy-append, top_key-All, subst,
}
use mini_vault.Platform.{Platform}
use mini_vault.Db.{World, Time, TransitKey, TransitKeyVersion, next_id}
use mini_vault.Transit.{create_aes, create_signing, rotate, revoke}

-- A call, with what it draws: the material, the nonce, and the time.
pub data KeyCall : Type 0 where
  creating : Bytes → Bytes → Time → (email name : Text) → KeyCall
  creating_signing : Bytes → Bytes → Time → (email name : Text) → KeyCall
  rotating : Bytes → Bytes → (email name : Text) → KeyCall
  revoking : Time → (email name : Text) → KeyCall

module _ (p : Platform) where
  -- The world that a call leaves, whatever it answers.
  abbrev pub perform : KeyCall → World → World
  perform (creating material nonce now email name) w =
      (create_aes p material nonce now email name w).1
  perform (creating_signing seed nonce now email name) w =
      (create_signing p seed nonce now email name w).1
  perform (rotating material nonce email name) w = (rotate p material nonce email name w).1
  perform (revoking now email name) w = (revoke p now email name w).1

  abbrev pub run : List KeyCall → World → World
  run [] w = w
  run (c ∷ cs) w = run cs (perform c w)

abbrev pub UniqueKeys : World → Type 0
UniqueKeys w = UniqueBy (λ (k : TransitKey). k.id) w.work.transit_keys

-- Keys of this owner and version rows of the next id may be added at the end, a key under an id that
-- is not in use; the key in memory stays.
abbrev pub Grown : Text → World → World → Type 0
Grown email w u =
    (ks : List TransitKey) × (vs : List TransitKeyVersion) × (u.work.transit_keys
      ≡ w.work.transit_keys ++ ks)
    × (u.work.transit_versions ≡ w.work.transit_versions ++ vs)
    × (u.dek ≡ w.dek)
    × (UniqueKeys w → UniqueKeys u)
    × All (λ (k : TransitKey). k.owner_email ≡ email) ks
    × All
        (λ (v : TransitKeyVersion).
          v.transit_key_id ≡ next_id (λ (k : TransitKey). k.id) w.work.transit_keys)
        vs

pub Grown-same : (email : Text) (w u : World) → u ≡ w → Grown email w u
Grown-same email w u e = subst (Grown email w) (sym e) (
  [],
  [],
  sym (append-nil w.work.transit_keys),
  sym (append-nil w.work.transit_versions),
  refl,
  λ h. h,
  tt,
  tt,
)

below_next : (n : ℕ) (ks : List TransitKey) → All (λ k. k.id ≤ n) ks → All (λ k. k.id < n + 1) ks
below_next n [] h = tt
below_next n (k ∷ ks) h = (omega (arith, h.0), below_next n ks h.1)

pub UniqueKeys-next :
    (w : World) (k : TransitKey)
    → k.id ≡ next_id (λ (x : TransitKey). x.id) w.work.transit_keys
    → UniqueKeys w
    → UniqueBy (λ (x : TransitKey). x.id) (w.work.transit_keys ++ k ∷ [])
UniqueKeys-next w k next h =
    UniqueBy-append (λ (x : TransitKey). x.id) w.work.transit_keys k h
      (rw next (
        below_next _ w.work.transit_keys
          (top_key-All (λ (x : TransitKey). x.id) _ w.work.transit_keys (omega arith))))
