-- ===== src/Core/WsAuth.antt =====
-- core/ws_auth.c: the users that may use the web server. The base64 coding of libwebsockets is the parameter
-- `b64`, and the header of a request is an argument, none where there is none. Whether the permissions
-- of the file are right, and its content, none where it cannot be opened, are arguments.
pub mod Access
use hakit.Base.{
  ℕ, zero, suc, Bool, true, false, not, Option, none, some, List, [], ◌∷◌, ◌++◌, if◌then◌else◌,
  length, take, drop, eq_bytes, ℤ, pos, negsuc,
}
use hakit.Core.Comm.{split_colon}
use hakit.Core.Options.Config.{fgets, stripped}

-- `ws_auth_user_t`
pub record User : Type 0 where
  pub name : List ℕ
  pub auth : List ℕ

-- `auth_required` and `users`
pub record Auth : Type 0 where
  pub required : Bool
  pub users : List User

abbrev pub no_auth : Auth
no_auth = record { required = false; users = [] }

-- sizeof(buf)
abbrev pub line_size : ℕ
line_size = 256

-- "Basic "
abbrev pub basic : List ℕ
basic = b'B' ∷ b'a' ∷ b's' ∷ b'i' ∷ b'c' ∷ b' ' ∷ []

module _ (b64 : List ℕ → List ℕ) (signed_char : Bool) where
  -- The user of a line without blanks and comments, if it defines one.
  unfoldable pub user_of : List ℕ → Option User
  user_of s = elim (split_colon s) [
    | none ↦ none
    | some (name, password) ↦ some (record { name = name; auth = b64 s })
  ]

  abbrev pub add_user : Option User → List User → List User
  add_user none users = users
  add_user (some user) users = user ∷ users

  -- The loop of `ws_auth_init`, on fuel: the users of the file.
  unfoldable pub read_users : ℕ → List ℕ → List User
  read_users zero s = []
  read_users (suc fuel) [] = []
  read_users (suc fuel) (c ∷ s) =
      let (line, rest) = fgets 255 (c ∷ s) in
      add_user (user_of (stripped signed_char line)) (read_users fuel rest)

  -- `ws_auth_init`
  unfoldable pub ws_auth_init : Bool → Option (List ℕ) → Auth → ℤ × Auth
  ws_auth_init permitted none a = (negsuc 0, record a { required = true })
  ws_auth_init permitted (some content) a =
      if permitted
      then (
        pos 0,
        record { required = true; users = a.users ++ read_users (length content) content },
      )
      else (negsuc 0, record a { required = true })

-- The loop of `ws_auth_check`: the user whose coding is given.
unfoldable pub find_user : List User → List ℕ → Option (List ℕ)
find_user [] auth = none
find_user (user ∷ users) auth =
    if eq_bytes auth user.auth then some user.name else find_user users auth

-- What `ws_auth_check` returns.
unfoldable pub ws_auth_check : Auth → Option (List ℕ) → Bool
ws_auth_check a none = not a.required
ws_auth_check a (some header) =
    if not a.required
    then true
    else if eq_bytes (take 6 header) basic
    then elim (find_user a.users (drop 6 header)) [ none ↦ false | some name ↦ true ]
    else false
