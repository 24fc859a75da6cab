-- ===== src/Go/Url.antt =====
-- What the program uses of net/url: percent-encoding in the modes that it calls, and the text of a
-- URL whose RawPath, User, Opaque and Fragment are empty, as those of `parseTargetURL` are.
use external_mirror_cache.Base.{
  ℕ, ◌+◌, ◌/◌, ◌%◌, Bool, true, false, not, ◌&&◌, ◌||◌, [], ◌∷◌, ◌++◌, Bytes, codes, ltb, ◌==◌,
  nat_eq, bytes_eq, if◌then◌else◌, any,
}
use external_mirror_cache.Go.Strings.{is_upper, is_lower, is_digit}

pub record Url : Type 0 where
  pub scheme : Bytes
  pub host : Bytes
  pub path : Bytes
  pub raw_query : Bytes

pub data Mode : Type 0 where
  path_mode path_segment host_mode query_component : Mode

abbrev pub is_alnum : ℕ → Bool
is_alnum c = is_lower c || is_upper c || is_digit c

abbrev pub is_unreserved : ℕ → Bool
is_unreserved c = is_alnum c || c == b'-' || c == b'_' || c == b'.' || c == b'~'

-- '$', '&', '+', ':', '=' and '@'
abbrev pub is_path_reserved : ℕ → Bool
is_path_reserved c = c == b'$' || c == b'&' || c == b'+' || c == b':' || c == b'=' || c == b'@'

-- shouldEscape
unfoldable pub should_escape : Mode → ℕ → Bool
should_escape path_mode c =
    not (is_unreserved c || is_path_reserved c || c == b',' || c == b'/' || c == b';')
should_escape path_segment c = not (is_unreserved c || is_path_reserved c)
should_escape host_mode c = not (is_unreserved c || any (λ p. c == p) (codes "!$&'()*+,;=:[]<>\""))
should_escape query_component c = not (is_unreserved c)

abbrev pub upper_hex : ℕ → ℕ
upper_hex n = if ltb n 10 then n + b'0' else n + 55

abbrev pub percent : ℕ → Bytes
percent c = b'%' ∷ upper_hex (c / 16) ∷ upper_hex (c % 16) ∷ []

abbrev pub is_query : Mode → Bool
is_query query_component = true
is_query _ = false

-- What stands for one byte: in a query component a space is '+'.
unfoldable pub escape_byte : Mode → ℕ → Bytes
escape_byte m c =
    if should_escape m c then if c == b' ' && is_query m then b'+' ∷ [] else percent c else c ∷ []

unfoldable pub escape : Mode → Bytes → Bytes
escape m [] = []
escape m (c ∷ s) = escape_byte m c ++ escape m s

abbrev pub path_escape : Bytes → Bytes
path_escape = escape path_segment

abbrev pub query_escape : Bytes → Bytes
query_escape = escape query_component

-- URL.EscapedPath
unfoldable pub escaped_path : Url → Bytes
escaped_path u = if u.path == codes "*" then codes "*" else escape path_mode u.path

-- The "//" and the host, where there is a scheme or a host, and a host or a path.
unfoldable pub authority : Url → Bytes
authority u =
    if (u.scheme == [] && u.host == []) || (u.host == [] && u.path == [])
    then []
    else codes "//" ++ escape host_mode u.host

abbrev pub starts_with_slash : Bytes → Bool
starts_with_slash [] = false
starts_with_slash (c ∷ s) = c == b'/'

-- URL.String, for a URL with a scheme.
unfoldable pub url_string : Url → Bytes
url_string u =
    let path = escaped_path u in
    let slash = if path == [] || starts_with_slash path || u.host == [] then [] else codes "/" in
    let query = if u.raw_query == [] then [] else b'?' ∷ u.raw_query in
    (u.scheme ++ codes ":") ++ (authority u ++ (slash ++ (path ++ query)))
