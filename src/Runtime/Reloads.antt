-- ===== src/Runtime/Reloads.antt =====
-- What the store holds after any number of reloads (internal/runtime/reloader.go and store.go).
use elchi_shield.Prelude.{
  Bool, ◌≡◌, refl, sym, ap, ◌∙◌, List, [], ◌∷◌, Option, none, some, if_rule, option_rule, ◌⊎◌, inl,
  inr, if◌then◌else◌,
}
use elchi_shield.Strings.{Text, text_eq}
use elchi_shield.Strings.Equality.{text_eq→≡}
use elchi_shield.Config.{set_to}
use elchi_shield.Config.Resolve.{last_set, set_to_over}
use elchi_shield.Config.Merge.{MergedConfig}
use elchi_shield.Engine.{Set}
use elchi_shield.Policy.Compile.{compile}
use elchi_shield.Runtime.{
  Snapshot, Store, Outcome, Loaded, empty_dir, load_failed, loaded, swap, new_snapshot, reload,
  snapshot_of, apply_snapshot, reload_config, failed, unchanged,
}

module _ {E F : Type 0} (regexp : Text → Option (Text → Bool)) (build : E → Option Set) (rate : F)
    (compute_hash : MergedConfig E F → Option Text) where
  abbrev offer : Loaded E F → Option (Snapshot E F)
  offer empty_dir = none
  offer load_failed = none
  offer (loaded cfg) = new_snapshot regexp build rate compute_hash cfg

  -- The hash of what a snapshot, if any, offers.
  abbrev hash_of : Option (Snapshot E F) → Option Text
  hash_of none = none
  hash_of (some snap) = some snap.hash

  -- The hash of a configuration that can be loaded, hashed and compiled.
  abbrev pub offered_hash : Loaded E F → Option Text
  offered_hash l = hash_of (offer l)

  -- The reloads one after the other.
  abbrev pub reloads : List (Loaded E F) → Store E F → Store E F
  reloads [] st = st
  reloads (l ∷ ls) st = reloads ls ((reload regexp build rate compute_hash l st).1)

  -- The snapshot is the given one, or compiled from one of the configurations.
  abbrev pub IsFrom : Snapshot E F → List (Loaded E F) → Snapshot E F → Type 0
  IsFrom first [] snap = snap ≡ first
  IsFrom first (l ∷ ls) snap = (offer l ≡ some snap) ⊎ IsFrom first ls snap

  abbrev HasHash : Text → Option (Snapshot E F) → Type 0
  HasHash hash none = Unit
  HasHash hash (some snap) = snap.hash ≡ hash

  snapshot_of-HasHash :
      (cfg : MergedConfig E F) (hash : Text)
      → HasHash hash (snapshot_of regexp build rate compute_hash cfg hash)
  unfolding snapshot_of
  snapshot_of-HasHash cfg hash =
      option_rule (HasHash hash) (compile regexp build rate cfg) (λ e. tt) λ r e. refl

  -- A reload leaves the snapshot, or sets the offered one; its hash is the offered one, if any.
  abbrev IsReload : Option (Snapshot E F) → Store E F → Outcome × Store E F → Type 0
  IsReload o st res =
      (((res.1).current ≡ st.current) ⊎ (o ≡ some ((res.1).current)))
      × ((res.1).current.hash ≡ set_to (hash_of o) st.current.hash)

  same_hash :
      (hash : Text) (o : Option (Snapshot E F)) (st : Store E F)
      → HasHash hash o
      → st.current.hash ≡ hash
      → st.current.hash ≡ set_to (hash_of o) st.current.hash
  same_hash hash none st h e = refl
  same_hash hash (some snap) st h e = e ∙ sym h

  apply-IsReload :
      (o : Option (Snapshot E F)) (st : Store E F)
      → IsReload o st (apply_snapshot regexp build rate compute_hash o st)
  unfolding swap
  apply-IsReload none st = (inl refl, refl)
  apply-IsReload (some snap) st = (inr refl, refl)

  reload_config-IsReload :
      (cfg : MergedConfig E F) (st : Store E F)
      → IsReload
          (new_snapshot regexp build rate compute_hash cfg)
          st
          (reload_config regexp build rate compute_hash cfg st)
  unfolding new_snapshot
  reload_config-IsReload cfg st =
      elim (compute_hash cfg)
        as (λ h.
          let o : Option (Snapshot E F) = elim h [
            | none ↦ none
            | some hash ↦ snapshot_of regexp build rate compute_hash cfg hash
          ] in
          IsReload o st (elim h [
            | none ↦ (failed, st)
            | some hash ↦
                if text_eq st.current.hash hash
                then (unchanged, st)
                else apply_snapshot regexp build rate compute_hash o st
          ])) [
            | none ↦ (inl refl, refl)
            | some hash ↦
                let o : Option (Snapshot E F) =
                  snapshot_of regexp build rate compute_hash cfg hash in
                if_rule (IsReload o st) (text_eq st.current.hash hash)
                  (λ same. (
                    inl refl,
                    same_hash hash o st (snapshot_of-HasHash cfg hash)
                        (text_eq→≡ st.current.hash hash same),
                  ))
                  λ other. apply-IsReload o st
          ]

  reload-IsReload :
      (l : Loaded E F) (st : Store E F)
      → IsReload (offer l) st (reload regexp build rate compute_hash l st)
  unfolding reload
  reload-IsReload empty_dir st = (inl refl, refl)
  reload-IsReload load_failed st = (inl refl, refl)
  reload-IsReload (loaded cfg) st = reload_config-IsReload cfg st

  IsFrom-step :
      (first x snap : Snapshot E F) (l : Loaded E F) (ls : List (Loaded E F))
      → (x ≡ first) ⊎ (offer l ≡ some x)
      → IsFrom x ls snap
      → IsFrom first (l ∷ ls) snap
  IsFrom-step first x snap l [] (inl e) h = inr (h ∙ e)
  IsFrom-step first x snap l [] (inr e) h = inl (e ∙ ap some (sym h))
  IsFrom-step first x snap l (m ∷ ms) e (inl h) = inr (inl h)
  IsFrom-step first x snap l (m ∷ ms) e (inr h) = elim (IsFrom-step first x snap l ms e h) [
    | inl o ↦ inl o
    | inr r ↦ inr (inr r)
  ]

  -- After any number of reloads the store holds the snapshot that it started with or one compiled
  -- from a configuration that was loaded, and its hash is that of the last configuration that could
  -- be loaded, hashed and compiled, or the first one's if none could: a reload that fails, or finds no
  -- files, keeps the last good snapshot.
  pub reloads-IsFrom :
      (ls : List (Loaded E F)) (st : Store E F)
      → IsFrom st.current ls (reloads ls st).current
        × ((reloads ls st).current.hash ≡ set_to (last_set offered_hash ls) st.current.hash)
  unfolding reload
  reloads-IsFrom [] st = (refl, refl)
  reloads-IsFrom (l ∷ ls) st =
      let st' : Store E F = (reload regexp build rate compute_hash l st).1 in
      let (held, hash) = reload-IsReload l st in
      let (from, last) = reloads-IsFrom ls st' in
      (
        IsFrom-step st.current st'.current (reloads ls st').current l ls held from,
        last
            ∙ ap (set_to (last_set offered_hash ls)) hash
            ∙ sym (set_to_over (last_set offered_hash ls) (offered_hash l) st.current.hash),
      )
