-- ===== src/Core/Http/Paths.antt =====
-- `media_type_essence`, `normalize_endpoint_base`, `is_endpoint_path` and `command_path` of
-- core/http.py, over code points.
pub mod Base
use aep_python.Common.{
  ℕ, Bool, true, false, not, ◌&&◌, ◌||◌, Option, none, some, List, [], ◌∷◌, ◌++◌, ◌==◌, nat_eq,
  string_eq, pair_eq, list_eq, member, leb, if◌then◌else◌, any, is_empty,
}
use aep_python.Common.Exec.{value_error, Result, ok, raised, blocked}
use aep_python.Common.Text.{Text, codes, lower, span}
use aep_python.Core.Http.{blank}

-- a character of `_TOKEN`
unfoldable pub token_code : ℕ → Bool
token_code c =
    (leb b'0' c && leb c b'9')
    || ((leb b'A' c && leb c b'Z')
        || ((leb b'a' c && leb c b'z') || member c (codes "!#$%&'*+.^_`|~-")))

-- `[\t !-~\x80-\xff]`
abbrev pub quotable : ℕ → Bool
quotable c = c == 9 || ((leb 0x20 c && leb c 0x7e) || (leb 0x80 c && leb c 0xff))

-- where the matcher of the parameters stands: in blanks outside a parameter, after `;`, in a name,
-- after a name, after `=`, in a token value, in a quoted value, after a backslash in one
pub data Place : Type 0 where
  gap separator name named equals value quoted escaped : Place

unfoldable pub next_place : Place → ℕ → Option Place
next_place gap c = if blank c then some gap else if c == b';' then some separator else none
next_place separator c =
    if blank c then some separator else if token_code c then some name else none
next_place name c =
    if token_code c
    then some name
    else if blank c
    then some named
    else if c == b'='
    then some equals
    else none
next_place named c = if blank c then some named else if c == b'=' then some equals else none
next_place equals c =
    if blank c
    then some equals
    else if token_code c
    then some value
    else if c == 34
    then some quoted
    else none
next_place value c =
    if token_code c
    then some value
    else if blank c
    then some gap
    else if c == b';'
    then some separator
    else none
next_place quoted c =
    if c == 34
    then some gap
    else if c == 92
    then some escaped
    else if quotable c
    then some quoted
    else none
next_place escaped c = if quotable c then some quoted else none

-- a text may end outside a parameter or behind a token value
abbrev pub may_end : Place → Bool
may_end gap = true
may_end value = true
may_end _ = false

unfoldable pub parameters : Place → Text → Bool
parameters p [] = may_end p
parameters p (c ∷ t) = elim (next_place p c) [ none ↦ false | some q ↦ parameters q t ]

-- the type and the subtype of a text that matches `_MEDIA_TYPE_PATTERN`
abbrev pub essence_of : Text → Text → Text
essence_of main (c ∷ rest) =
    let (sub, tail) = span token_code rest in
    if is_empty main || (not (c == b'/') || (is_empty sub || not (parameters gap tail)))
    then []
    else lower (main ++ (b'/' ∷ sub))
essence_of main [] = []

unfoldable pub media_type_essence : Text → Text
media_type_essence t = let (main, rest) = span token_code (span blank t).1 in essence_of main rest

-- the parts of `s.split(chr(sep))`
unfoldable pub split : ℕ → Text → List Text
split sep [] = [] ∷ []
split sep (c ∷ t) =
    let rest = split sep t in
    if c == sep
    then [] ∷ rest
    else elim rest as (λ _. List Text) [ [] ↦ (c ∷ []) ∷ [] | p ∷ ps ↦ (c ∷ p) ∷ ps ]

abbrev pub dots : Text → Bool
dots t = t == codes "." || t == codes ".."

-- one `/` at the front, and not two
abbrev pub rooted : Text → Bool
rooted (a ∷ b ∷ t) = a == b'/' && not (b == b'/')
rooted (a ∷ []) = a == b'/'
rooted [] = false

unfoldable pub is_endpoint_path : Text → Bool
is_endpoint_path t =
    rooted t && (not (member b'?' t || member b'#' t) && not (any dots (split b'/' t)))

abbrev pub ends_with : ℕ → Text → Bool
ends_with c [] = false
ends_with c (x ∷ []) = x == c
ends_with c (x ∷ y ∷ t) = ends_with c (y ∷ t)

unfoldable pub normalize_endpoint_base : Text → Result Text
normalize_endpoint_base t =
    if not (is_endpoint_path t)
    then raised (value_error "AEP endpoint_base must be an origin-relative absolute path")
    else ok (if ends_with b'/' t then t else t ++ (b'/' ∷ []))

-- `Command` of core/models.py
pub data Command : Type 0 where
  inspect enroll grant revoke status : Command

abbrev pub command_value : Command → Text
command_value inspect = codes "inspect"
command_value enroll = codes "enroll"
command_value grant = codes "grant"
command_value revoke = codes "revoke"
command_value status = codes "status"

abbrev pub appended : Result Text → Text → Result Text
appended (ok base) command = ok (base ++ command)
appended (raised e) command = raised e
appended blocked command = blocked

unfoldable pub command_path : Command → Text → Result Text
command_path inspect base = raised (value_error "Inspect does not have a command endpoint path")
command_path enroll base = appended (normalize_endpoint_base base) (command_value enroll)
command_path grant base = appended (normalize_endpoint_base base) (command_value grant)
command_path revoke base = appended (normalize_endpoint_base base) (command_value revoke)
command_path status base = appended (normalize_endpoint_base base) (command_value status)
