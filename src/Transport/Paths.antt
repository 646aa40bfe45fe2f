-- ===== src/Transport/Paths.antt =====
-- internal/transport/path_manager.go: the paths of a session and the choice of the primary path. `P`
-- is the type of a path object. AddRelay and its channel are left out.
pub mod Steps
pub mod Closing
mod Tests
use kwik.Prelude.{
  ℕ, zero, suc, ◌+◌, List, [], ◌∷◌, Bool, true, false, Option, none, some, ◌==◌, if◌then◌else◌,
  add64, map,
}
use kwik.Prelude.Map.{Map, lookup, insert, delete, has}
use kwik.Protocol.Errors.{Error, Result, ok, err, path_not_exists, other}

pub record PathManager {ℓ} (P : Type ℓ) : Type ℓ where
  pub paths : Map P
  pub next_path_id : ℕ
  -- 0 is no path
  pub primary_path_id : ℕ

-- fmt.Errorf("failed to create ... path")
abbrev pub not_created : Error
not_created = other 0

module _ {ℓ} {P : Type ℓ} where
  unfoldable pub new_path_manager : PathManager P
  new_path_manager = record { paths = []; next_path_id = 0; primary_path_id = 0 }

  -- What NewPath has made for the number `id` becomes a path; `none` is nil.
  unfoldable pub store_path : ℕ → Option P → PathManager P → Result ℕ × PathManager P
  store_path id none pm = (err not_created, pm)
  store_path id (some path) pm = (ok id, record pm { paths = insert id path pm.paths })

  -- AcceptPath, and OpenPath behind its dialling.
  unfoldable pub accept_path : Option P → PathManager P → Result ℕ × PathManager P
  accept_path made pm =
      let id = add64 pm.next_path_id 1 in
      let counted = record pm { next_path_id = id } in
      if has id pm.paths then (err (path_not_exists id), counted) else store_path id made counted

  -- OpenPath, where `dialled` is the error of quic.DialAddr.
  unfoldable pub open_path : Option Error → Option P → PathManager P → Result ℕ × PathManager P
  open_path (some e) made pm = (err e, pm)
  open_path none made pm = accept_path made pm

  unfoldable pub set_primary_path : ℕ → PathManager P → PathManager P
  set_primary_path id pm = if has id pm.paths then record pm { primary_path_id = id } else pm

  unfoldable pub get_primary_path : PathManager P → Option P
  get_primary_path pm = lookup pm.primary_path_id pm.paths

  unfoldable pub get_path : ℕ → PathManager P → Option P
  get_path id pm = lookup id pm.paths

  -- The first key of an iteration over a map with a first entry, which may start anywhere.
  abbrev pub first_key : ℕ → ℕ × P → Map P → ℕ
  first_key zero entry m = entry.0
  first_key (suc start) entry [] = entry.0
  first_key (suc start) entry (next ∷ m) = first_key start next m

  -- The new primary path when the old one is removed: 0 if no path is left.
  abbrev pub choose_primary : ℕ → Map P → ℕ
  choose_primary start [] = 0
  choose_primary start (entry ∷ m) = first_key start entry m

  unfoldable pub remove_path : ℕ → ℕ → PathManager P → PathManager P
  remove_path start id pm =
      let left = delete id pm.paths in
      if pm.primary_path_id == id
      then record pm { paths = left; primary_path_id = choose_primary start left }
      else record pm { paths = left }

  -- The loop of CloseAllPaths, where `close` is what the path's Close answers: the first error
  -- ends it, and the paths that are closed are gone.
  unfoldable pub close_paths : (ℕ → P → Option Error) → Map P → Option Error × Map P
  close_paths close [] = (none, [])
  close_paths close (entry ∷ m) =
      let rest = close_paths close m in
      elim (close entry.0 entry.1) [ none ↦ rest | some e ↦ (some e, entry ∷ m) ]

  unfoldable pub close_all_paths :
      (ℕ → P → Option Error) → PathManager P → Option Error × PathManager P
  close_all_paths close pm =
      let (e, left) = close_paths close pm.paths in (e, record pm { paths = left })

  unfoldable pub get_active_path_ids : PathManager P → List ℕ
  get_active_path_ids pm = map (λ entry. entry.0) pm.paths
