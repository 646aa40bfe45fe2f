-- ===== src/Transport/Paths/Closing.antt =====
-- internal/transport/path_manager.go: CloseAllPaths.
use kwik.Prelude.{ℕ, ◌≡◌, refl, [], ◌∷◌, ◌++◌, Option, none, some}
use kwik.Prelude.Map.{Map, lookup, Every}
use kwik.Protocol.Errors.{Error}
use kwik.Transport.Paths.{PathManager, get_primary_path, close_paths, close_all_paths}

module _ {ℓ} {P : Type ℓ} (close : ℕ → P → Option Error) where
  close_paths_all :
      (m : Map P) → Every (λ id path. close id path ≡ none) m → close_paths close m ≡ (none, [])
  unfolding close_paths
  close_paths_all [] h = refl
  close_paths_all (entry ∷ m) h = rw (h.0, close_paths) (close_paths_all m h.1)

  close_paths_until :
      (before : Map P) (id : ℕ) (path : P) (after : Map P) (e : Error)
      → Every (λ id path. close id path ≡ none) before
      → close id path ≡ some e
      → close_paths close (before ++ ((id, path) ∷ after)) ≡ (some e, (id, path) ∷ after)
  unfolding close_paths
  close_paths_until [] id path after e h failed = rw (failed, close_paths) refl
  close_paths_until (entry ∷ before) id path after e h failed =
      rw (h.0, close_paths) (close_paths_until before id path after e h.1 failed)

  -- If every path closes, CloseAllPaths reports no error and no path is left; the number of the
  -- primary path stays as it was, and GetPrimaryPath finds nothing.
  pub close_all_paths_done :
      (pm : PathManager P)
      → Every (λ id path. close id path ≡ none) pm.paths
      → let (e, pm') = close_all_paths close pm in
        (e ≡ none)
        × (pm'.paths ≡ [])
        × (pm'.primary_path_id ≡ pm.primary_path_id)
        × (get_primary_path pm' ≡ none)
  unfolding close_all_paths get_primary_path lookup
  close_all_paths_done pm h =
      let e = close_paths_all pm.paths h in rw (e, close_all_paths) (refl, refl, refl, refl)

  -- The first path that does not close ends CloseAllPaths with its error: the paths in front of it
  -- are gone, it and the paths behind it stay.
  pub close_all_paths_failed :
      (pm : PathManager P) (before : Map P) (id : ℕ) (path : P) (after : Map P) (e : Error)
      → pm.paths ≡ before ++ ((id, path) ∷ after)
      → Every (λ id path. close id path ≡ none) before
      → close id path ≡ some e
      → close_all_paths close pm ≡ (some e, record pm { paths = (id, path) ∷ after })
  unfolding close_all_paths
  close_all_paths_failed pm before id path after e shape h failed =
      let k = close_paths_until before id path after e h failed in rw (shape, k) refl
