-- ===== src/Lxd/Boot.antt =====
-- What LXD is given once, at the start of the process: `AliasExists`, `PullUbuntuImage`,
-- `CreateBridgeNetwork` and `CreateDirStoragePool` of src/lxd/lxd.go.
use kws.Prelude.{Bool, false, Text, if◌then◌else◌}
use kws.World.{
  image_copied, bridge_created, storage_pool_created, M, ok, err, pure, try, ⊤, ◌>>=◌, ◌>>◌,
  Services, call, command, now,
}

module _ (s : Services) where
  -- The status 404 is no error.
  unfoldable pub alias_exists : M s.Memory Bool
  unfolding call
  alias_exists = do n ← now s; call s; pure (s.present n)

  -- The connection to the remote, its alias and image, the copy, and the wait for it.
  unfoldable pub pull_ubuntu_image : M s.Memory ⊤
  unfolding alias_exists call command
  pull_ubuntu_image = do
    found ← alias_exists
    if found then pure tt else (do call s; call s; call s; call s; command s image_copied)

  -- Whether a query has an answer: every error counts like a missing thing.
  answers : M s.Memory Bool
  unfolding call
  answers = do
    n ← now s
    asked ← try (call s)
    elim asked [ err e ↦ pure false | ok _ ↦ pure (s.present n) ]

  unfoldable pub create_bridge_network : M s.Memory ⊤
  unfolding answers command
  create_bridge_network = do found ← answers; if found then pure tt else command s bridge_created

  unfoldable pub create_dir_storage_pool : Text → M s.Memory ⊤
  unfolding answers command
  create_dir_storage_pool name = do
    found ← answers
    if found then pure tt else command s (storage_pool_created name)
