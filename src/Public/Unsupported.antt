-- ===== src/Public/Unsupported.antt =====
-- recordUnsupported of dtu/public.go.
use merger_herder_validation.Prelude.{[], ◌∷◌, ◌++◌, String}
use merger_herder_validation.World.{World}

unfoldable pub record_unsupported : World → String → String → World
record_unsupported w method path = record w {
  unsupported = w.unsupported ++ record { method = method; path = path; time = w.now } ∷ [];
}
