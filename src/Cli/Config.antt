-- ===== src/Cli/Config.antt =====
-- src/util/config_tracker.hpp: the file with the tracker's URL. The environment's HOME and
-- EMBR_TRACKER are parameters. create_directories is taken to work; an ofstream that cannot be
-- opened writes nothing and reports nothing.
use embr.Base.{
  All, Option, [], ap, arith, err, false, if◌then◌else◌, no_home, none, ok, refl, some, true, ℕ,
  ◌++◌, ◌==◌, ◌∙◌, ◌∷◌, ◌≡◌, ◌≢◌,
}
use embr.Exec.{Exec}
use embr.Protocol.{Bytes}
use embr.Text.{codes, empty_text}
use embr.World.{World}
use embr.World.Files.{content, content-put_file, put_file}

-- std::filesystem::path: a / b, for b without a slash at its head.
unfoldable pub slash : Bytes → Bytes → Bytes
slash [] b = b
slash (c ∷ []) b = if c == b'/' then c ∷ b else c ∷ b'/' ∷ b
slash (c ∷ d ∷ a) b = c ∷ slash (d ∷ a) b

-- The empty path where HOME is not set.
unfoldable pub get_config_path : Option Bytes → Bytes
get_config_path none = []
get_config_path (some []) = []
get_config_path (some (c ∷ home)) =
    slash (slash (slash (c ∷ home) (codes ".config")) (codes "embr")) (codes "tracker")

-- std::getline.
unfoldable pub first_line : Bytes → Bytes
first_line [] = []
first_line (c ∷ s) = if c == 10 then [] else c ∷ first_line s

unfoldable pub read_tracker_url : Option Bytes → World → Bytes
read_tracker_url home w =
    if empty_text (get_config_path home) then [] else first_line (content (get_config_path home) w)

unfoldable pub write_tracker_url : Option Bytes → Bytes → Exec World (Unit {0})
write_tracker_url home url w =
    if empty_text (get_config_path home)
    then (err no_home, w)
    else if w.may_write (get_config_path home)
    then (ok tt, put_file (get_config_path home) (url ++ (10 ∷ [])) w)
    else (ok tt, w)

-- The flag, the environment, the file, or nothing.
unfoldable pub resolve_tracker_url : Option Bytes → Option Bytes → Bytes → World → Bytes
resolve_tracker_url home none [] w = read_tracker_url home w
resolve_tracker_url home (some []) [] w = read_tracker_url home w
resolve_tracker_url home (some (c ∷ env)) [] w = c ∷ env
resolve_tracker_url home env (c ∷ flag) w = c ∷ flag

first_line-append : (url : Bytes) → All (λ b. b ≢ 10) url → first_line (url ++ (10 ∷ [])) ≡ url
unfolding first_line
first_line-append [] h = refl
first_line-append (c ∷ url) (ne, h) = rw (apart, first_line-append url h) refl
  where
    apart : (c == 10) ≡ false
    apart = ground arith

-- The first of two texts, unless it is empty.
abbrev pub first_of : Bytes → Bytes → Bytes
first_of [] b = b
first_of (c ∷ a) b = c ∷ a

abbrev pub or_empty : Option Bytes → Bytes
or_empty none = []
or_empty (some s) = s

slash-ne-nil : (a b : Bytes) → empty_text b ≡ false → empty_text (slash a b) ≡ false
unfolding slash
slash-ne-nil [] b h = h
slash-ne-nil (c ∷ []) b h = ground arith
slash-ne-nil (c ∷ d ∷ a) b h = refl

-- What is chosen, given what the file says.
pub resolve_tracker_url-read :
    (home env : Option Bytes) (flag url : Bytes) (w : World)
    → read_tracker_url home w ≡ url
    → resolve_tracker_url home env flag w ≡ first_of flag (first_of (or_empty env) url)
unfolding resolve_tracker_url
resolve_tracker_url-read home none [] url w e = e
resolve_tracker_url-read home (some []) [] url w e = e
resolve_tracker_url-read home (some (d ∷ f)) [] url w e = refl
resolve_tracker_url-read home none (c ∷ flag) url w e = refl
resolve_tracker_url-read home (some []) (c ∷ flag) url w e = refl
resolve_tracker_url-read home (some (d ∷ f)) (c ∷ flag) url w e = refl

module _ (c : ℕ) (home : Bytes) where
  abbrev pub config_path : Bytes
  config_path = get_config_path (some (c ∷ home))

  pub config_path-ne-nil : empty_text config_path ≡ false
  unfolding get_config_path
  config_path-ne-nil =
      slash-ne-nil (slash (slash (c ∷ home) (codes ".config")) (codes "embr")) (codes "tracker")
        refl

  -- What is read is the first line of the file.
  pub read_tracker_url-content :
      (w : World) → read_tracker_url (some (c ∷ home)) w ≡ first_line (content config_path w)
  unfolding read_tracker_url
  read_tracker_url-content w = rw config_path-ne-nil refl

  pub write_tracker_url-put_file :
      (url : Bytes) (w : World)
      → w.may_write config_path ≡ true
      → write_tracker_url (some (c ∷ home)) url w
        ≡ (ok tt, put_file config_path (url ++ (10 ∷ [])) w)
  unfolding write_tracker_url
  write_tracker_url-put_file url w allowed = rw (config_path-ne-nil, allowed) refl

  pub read_tracker_url-put_file :
      (url : Bytes) (w : World)
      → All (λ b. b ≢ 10) url
      → read_tracker_url (some (c ∷ home)) (put_file config_path (url ++ (10 ∷ [])) w) ≡ url
  read_tracker_url-put_file url w h =
      read_tracker_url-content (put_file config_path (url ++ (10 ∷ [])) w)
      ∙ ap first_line (content-put_file config_path (url ++ (10 ∷ [])) w)
      ∙ first_line-append url h
