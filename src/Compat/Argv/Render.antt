-- ===== src/Compat/Argv/Render.antt =====
-- The command line of crates/lmml-compat/src/lib.rs as the words of its settings.
use mathlib.Core.List.{append_assoc, append-nil}
use lmml.Base.{
  String, ◌≡◌, refl, sym, ap, ◌∙◌, Bool, true, false, ◌&&◌, ◌||◌, Option, none, some, List, [], ◌∷◌,
  ◌++◌, arith, ltb, if◌then◌else◌,
}
use lmml.Compat.Types.{LlamaBinaryCapabilities, ServerConfig, has_flag, has_any}
use lmml.Compat.Help.{flash_attn_help_requires_value, capabilities_from_help}
use lmml.Compat.Argv.{
  select_flag, flag_with, flag_alone, push_value, push_switch, filled, flash_names, push_basics,
  push_ubatch, push_threads, push_flash, push_mlock, push_filled, push_jinja, build_argv,
}
use lmml.Compat.Argv.Plan.{
  Setting, names_of, valued, switch, wanted, spell_as, render, flash_setting, text_setting, basics,
  ubatch_setting, ubatch, threads_setting, threads, flash, mlock, jinja, plan,
}

select_flag-none :
    (flags names : List String) (never : has_any flags names ≡ false)
    → select_flag flags names ≡ none
unfolding select_flag
select_flag-none flags [] never = refl
select_flag-none flags (name ∷ names) never =
    unknown (has_flag flags name) never (select_flag-none flags names)
  where
    unknown :
        (known : Bool) (never : known || has_any flags names ≡ false)
        (rest : (never : has_any flags names ≡ false) → select_flag flags names ≡ none)
        → (if known then some name else select_flag flags names) ≡ none
    unknown true never rest = ground arith
    unknown false never rest = rest never

abbrev words_of : List String → Setting → List String
words_of flags setting = spell_as (select_flag flags (names_of setting)) setting.value

words_of-missing :
    (flags : List String) (setting : Setting) (never : has_any flags (names_of setting) ≡ false)
    → words_of flags setting ≡ []
words_of-missing flags setting never =
    ap (λ flag. spell_as flag setting.value) (select_flag-none flags (names_of setting) never)
    ∙ no_words setting.value
  where
    no_words : (value : Option String) → spell_as none value ≡ []
    no_words none = refl
    no_words (some text) = refl

render-++ :
    (flags : List String) (one two : List Setting)
    → render flags (one ++ two) ≡ render flags one ++ render flags two
unfolding render
render-++ flags [] two = refl
render-++ flags (setting ∷ one) two =
    ap (λ rest. words_of flags setting ++ rest) (render-++ flags one two)
    ∙ sym (append_assoc (words_of flags setting) (render flags one) (render flags two))

-- A step that pushes the words of a setting.
push_always :
    (flags : List String) (argv : List Setting) (setting : Setting)
    → render flags argv ++ words_of flags setting ≡ render flags (argv ++ setting ∷ [])
unfolding render
push_always flags argv setting = sym (
    render-++ flags argv (setting ∷ [])
    ∙ ap (λ rest. render flags argv ++ rest) (append-nil (words_of flags setting)))

push_wanted :
    (flags : List String) (argv : List Setting) (setting : Setting) (on : Bool)
    → (if on then render flags argv ++ words_of flags setting else render flags argv)
      ≡ render flags (argv ++ wanted on setting)
push_wanted flags argv setting true = push_always flags argv setting
push_wanted flags argv setting false = ap (render flags) (sym (append-nil argv))

push_known :
    (flags : List String) (argv : List Setting) (setting : Setting)
    → (if has_any flags (names_of setting)
        then render flags argv ++ words_of flags setting
        else render flags argv)
      ≡ render flags (argv ++ setting ∷ [])
push_known flags argv setting = known (has_any flags (names_of setting)) refl
  where
    known :
        (b : Bool) (test : has_any flags (names_of setting) ≡ b)
        → (if b then render flags argv ++ words_of flags setting else render flags argv)
          ≡ render flags (argv ++ setting ∷ [])
    known true test = push_always flags argv setting
    known false test =
        sym (append-nil (render flags argv))
        ∙ ap (λ words. render flags argv ++ words) (sym (words_of-missing flags setting test))
        ∙ push_always flags argv setting

push_wanted_known :
    (flags : List String) (argv : List Setting) (setting : Setting) (on : Bool)
    → (if on && has_any flags (names_of setting)
        then render flags argv ++ words_of flags setting
        else render flags argv)
      ≡ render flags (argv ++ wanted on setting)
push_wanted_known flags argv setting true = push_known flags argv setting
push_wanted_known flags argv setting false = ap (render flags) (sym (append-nil argv))

push_flash_words :
    (flags : List String) (argv : List Setting) (on requires_value : Bool)
    → (if on && has_any flags flash_names
        then (if requires_value
            then render flags argv ++ flag_with (select_flag flags flash_names) "on"
            else render flags argv ++ flag_alone (select_flag flags flash_names))
        else render flags argv)
      ≡ render flags (argv ++ wanted on (flash_setting requires_value))
push_flash_words flags argv on true = push_wanted_known flags argv (flash_setting true) on
push_flash_words flags argv on false = push_wanted_known flags argv (flash_setting false) on

module _ (config : ServerConfig) (version : Option String) (help : String)
    (flags : List String) where
  abbrev caps : LlamaBinaryCapabilities
  caps = capabilities_from_help version help flags

  push_basics-render : push_basics config caps ≡ render flags (basics config)
  unfolding push_basics push_value render capabilities_from_help
  push_basics-render = simp (append_assoc, append-nil)

  push_ubatch-render :
      (argv : List Setting)
      → push_ubatch config caps (render flags argv) ≡ render flags (argv ++ ubatch config)
  unfolding push_ubatch push_value capabilities_from_help
  push_ubatch-render argv =
      push_wanted_known flags argv (ubatch_setting config) (ltb 0 config.ubatch_size)

  push_threads-render :
      (argv : List Setting)
      → push_threads config caps (render flags argv) ≡ render flags (argv ++ threads config)
  unfolding push_threads push_value capabilities_from_help
  push_threads-render argv = push_wanted flags argv (threads_setting config) (ltb 0 config.threads)

  push_flash-render :
      (argv : List Setting)
      → push_flash config caps (render flags argv)
        ≡ render flags (argv ++ flash config (flash_attn_help_requires_value help))
  unfolding push_flash push_value push_switch capabilities_from_help
  push_flash-render argv =
      push_flash_words flags argv config.flash_attn (flash_attn_help_requires_value help)

  push_mlock-render :
      (argv : List Setting)
      → push_mlock config caps (render flags argv) ≡ render flags (argv ++ mlock config)
  unfolding push_mlock push_switch capabilities_from_help
  push_mlock-render argv = push_wanted_known flags argv (switch "--mlock" []) config.mlock

  push_jinja-render :
      (argv : List Setting)
      → push_jinja config caps (render flags argv) ≡ render flags (argv ++ jinja config)
  unfolding push_jinja push_switch capabilities_from_help
  push_jinja-render argv = push_wanted_known flags argv (switch "--jinja" []) config.jinja

  push_filled-render :
      (text : Option String) (name : String) (aliases : List String) (argv : List Setting)
      → push_filled config caps text
          (has_any flags (name ∷ aliases))
          (name ∷ aliases)
          (render flags argv)
        ≡ render flags (argv ++ text_setting text name aliases)
  unfolding push_filled push_value capabilities_from_help
  push_filled-render none name aliases argv = ap (render flags) (sym (append-nil argv))
  push_filled-render (some text) name aliases argv =
      push_known flags argv (valued name aliases text)

  -- For the capabilities that `capabilities_from_help` reports of a binary with these flags, the command
  -- line is the plan of the configuration, each of its settings written by its first spelling among the
  -- flags and left out if there is none, and after it the extra arguments.
  pub build_argv-plan :
      build_argv config (capabilities_from_help version help flags)
      ≡ render flags (plan config (flash_attn_help_requires_value help)) ++ config.extra_args
  unfolding build_argv capabilities_from_help push_switch render
  build_argv-plan = rw (
    push_basics-render,
    push_ubatch-render,
    push_threads-render,
    push_flash-render,
    push_mlock-render,
    push_filled-render (filled config.api_key) "--api-key" [],
    push_jinja-render,
    push_filled-render (filled config.chat_template) "--chat-template"
        ("--chat-template-file" ∷ []),
  )
