-- ===== src/App/Limits/Client.antt =====
-- `client_key` of backend/app/limits.py: the key that the rate limiter counts a request under.
use p_r_i_s_m.Prelude.{Bool, true, false, Option, none, some, [], ◌∷◌, nat_eq, if◌then◌else◌}
use p_r_i_s_m.Text.{Text, Unicode, codes, strip}

-- The part of a request that is read: the header `x-forwarded-for`, and the host of the client.
pub record Request : Type 0 where
  pub forwarded : Option Text
  pub host : Option Text

-- `fwd.split(",")[0]`
unfoldable pub before_comma : Text → Text
before_comma [] = []
before_comma (c ∷ text) = let rest = before_comma text in if nat_eq c 44 then [] else c ∷ rest

-- `request.client.host if request.client else "unknown"`
unfoldable pub host_of : Option Text → Text
host_of none = codes "unknown"
host_of (some host) = host

-- An empty header counts as none.
unfoldable pub forwarded_or : Unicode → Option Text → Text → Text
unfolding strip before_comma
forwarded_or u none other = other
forwarded_or u (some []) other = other
forwarded_or u (some (c ∷ fwd)) other = strip u (before_comma (c ∷ fwd))

-- `client_key`
unfoldable pub client_key : Unicode → Bool → Request → Text
unfolding forwarded_or host_of
client_key u true request = forwarded_or u request.forwarded (host_of request.host)
client_key u false request = host_of request.host
