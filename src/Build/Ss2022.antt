-- ===== src/Build/Ss2022.antt =====
-- The shadowsocks methods with a key of their own for each user, in config.go of both kernels.
use xboard_node_plus.Prelude.{ℕ, zero, suc, Str, [], ◌∷◌, Option, none, some, str_eq, codes, Map}
use xboard_node_plus.Build.Library.{Library}

-- ss2022Methods: the size of a key in bytes.
abbrev pub ss2022_methods : Map Str ℕ
ss2022_methods =
    (codes "2022-blake3-aes-128-gcm", 16)
    ∷ (codes "2022-blake3-aes-256-gcm", 32)
    ∷ (codes "2022-blake3-chacha20-poly1305", 32)
    ∷ []

-- A buffer of this size, zeroed, with copy(rawBuf, uuid).
unfoldable pub raw_buf : ℕ → Str → Str
raw_buf zero uuid = []
raw_buf (suc n) [] = 0 ∷ raw_buf n []
raw_buf (suc n) (c ∷ uuid) = c ∷ raw_buf n uuid

-- The password of a user: the UUID, or its key under such a method.
unfoldable pub user_password : Library → Option ℕ → Str → Str
user_password lib none uuid = uuid
user_password lib (some size) uuid = lib.base64 (raw_buf size uuid)
