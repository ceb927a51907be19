-- ===== src/Adapters/Http.antt =====
-- What the two adapters see of an HTTP exchange, and the mapping of the status that each of them has.
use atlas_knowledge.Common.{
  ◌+◌, Bool, ◌&&◌, ◌||◌, [], ◌∷◌, ◌++◌, ◌==◌, leb, if◌then◌else◌, map, Text, codes, starts_with,
  strip_left,
}
use mathlib.Core.List.{reverse}

-- An exception of the client: `TimeoutException`, another `HTTPError`, any other exception, or the
-- cancellation of the task.
pub data Fault : Type 0 where
  timed_out http_error other_error task_cancelled : Fault

-- `str.lower`, as far as the search for an ASCII word without k, i and s can tell
abbrev pub lower : Text → Text
lower s = map (λ c. if leb b'A' c && leb c b'Z' then c + 32 else c) s

-- `part in s`
abbrev pub contains : Text → Text → Bool
contains [] part = starts_with [] part
contains (c ∷ s) part = starts_with (c ∷ s) part || contains s part

abbrev pub reports_length : Text → Bool
reports_length body =
    contains (lower body) (codes "context") || contains (lower body) (codes "length")

-- `base_url.rstrip('/')` with the path of the service behind it
unfoldable pub service_url : Text → Text → Text
unfolding strip_left
service_url base path = reverse (strip_left (λ c. c == b'/') (reverse base)) ++ path
