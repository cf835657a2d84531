-- ===== src/LaunchSpec/Writer.antt =====
-- proot_launch_spec.py: the dict of a launch specification.
use etroute.Prelude.{List, [], ◌∷◌, ok, ◌>>=◌}
use etroute.Python.Text.{Text, codes}
use etroute.Python.Value.{
  pos, bool, int, str, arr, obj, Items, nil, cons, Fields, end, field, of_texts, of_optional,
}
use etroute.Python.FileSystem.{FileSystem}
use etroute.LaunchSpec.{LaunchBind, ProotLaunchSpec, validate, Checked}

-- `asdict(bind)` and `asdict(validated)`
unfoldable pub bind_dict : LaunchBind → Fields
bind_dict b = field (codes "host") (str b.host) (
    field (codes "guest") (str b.guest)
      (field (codes "no_dereference") (bool b.no_dereference) end))

unfoldable pub bind_dicts : List LaunchBind → Items
unfolding bind_dict
bind_dicts [] = nil
bind_dicts (b ∷ bs) = cons (obj (bind_dict b)) (bind_dicts bs)

unfoldable pub env_dict : List (Text × Text) → Fields
env_dict [] = end
env_dict ((key, value) ∷ env) = field key (str value) (env_dict env)

unfoldable pub spec_dict : ProotLaunchSpec → Fields
unfolding bind_dicts env_dict
spec_dict s = field (codes "rootfs") (str s.rootfs) (
    field (codes "command") (arr (of_texts s.command)) (
      field (codes "binds") (arr (bind_dicts s.binds)) (
        field (codes "root_id") (bool s.root_id) (
          field (codes "kill_on_exit") (bool s.kill_on_exit) (
            field (codes "kernel_release") (of_optional s.kernel_release) (
              field (codes "guest_working_directory") (of_optional s.guest_working_directory) (
                field (codes "environment") (obj (env_dict s.environment))
                  (field (codes "schema_version") (int (pos s.schema_version)) end))))))))

-- `ProotLaunchSpec.to_dict`
unfoldable pub to_dict : FileSystem → ProotLaunchSpec → Checked Fields
unfolding validate spec_dict
to_dict fs s = do validated ← validate fs s; ok (spec_dict validated)
