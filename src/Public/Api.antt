-- ===== src/Public/Api.antt =====
-- What a service method gives to the server: githubAPIResponse and githubAPIError.
use merger_herder_validation.Prelude.{ℕ, String}
use merger_herder_validation.World.{World}

-- An error response, or a payload with the status of its response.
pub data ApiResult {ℓ} (A : Type ℓ) : Type ℓ where
  api_error : ℕ → String → ApiResult A
  api_response : ℕ → A → ApiResult A

-- An error that leaves the world as it is.
abbrev pub api_refuse {ℓ} : {A : Type ℓ} → World → ℕ → String → World × ApiResult A
api_refuse w status message = (w, api_error status message)
