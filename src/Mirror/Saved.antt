-- ===== src/Mirror/Saved.antt =====
-- What is read of the settings after they were saved.
use agu_odoo.Base.{
  ◌≡◌, refl, ◌∙◌, ◌||◌, Bool, true, false, Option, none, some, String, if◌then◌else◌,
}
use agu_odoo.Text.{nonempty, str_eq}
use agu_odoo.Odoo.{is_set, text_of}
use agu_odoo.Mirror.Repository.{not_configured}
use agu_odoo.Mirror.Config.{
  Parameters, IsLawful, ConfigForm, flag_text, set_values, get_values, settings_of,
  action_clear_gitlab_token,
}

shown_text : (o : Option String) → (if is_set o then text_of o else "") ≡ text_of o
shown_text none = refl
shown_text (some String.[]) = refl
shown_text (some (String.◌∷◌ c s)) = refl

shown_flag : (b : Bool) → str_eq (if nonempty (flag_text b) then flag_text b else "") "True" ≡ b
shown_flag true = refl
shown_flag false = refl

or_true : (b : Bool) → (b || true) ≡ true
or_true true = refl
or_true false = refl

module _ {P : Type 0} (params : Parameters P) (laws : IsLawful params) (base : ConfigForm → P → P)
    (form : ConfigForm) (p : P) where
  url_saved :
      params.value_of "gitlab_nostr_bridge.gitlab_url" (set_values params base form p)
      ≡ form.gitlab_url
  unfolding set_values
  url_saved =
      laws.value_of-set_param_other _ _ _ _ refl
      ∙ laws.value_of-set_param_other _ _ _ _ refl
      ∙ laws.value_of-set_param_other _ _ _ _ refl
      ∙ laws.value_of-set_param_self _ _ _

  token_saved :
      params.value_of "gitlab_nostr_bridge.gitlab_private_token" (set_values params base form p)
      ≡ form.gitlab_private_token
  unfolding set_values
  token_saved =
      laws.value_of-set_param_other _ _ _ _ refl
      ∙ laws.value_of-set_param_other _ _ _ _ refl
      ∙ laws.value_of-set_param_self _ _ _

  flag_saved :
      params.value_of "use_alternative_publish" (set_values params base form p)
      ≡ some (flag_text form.use_alternative_publish)
  unfolding set_values
  flag_saved = laws.value_of-set_param_other _ _ _ _ refl ∙ laws.value_of-set_param_self _ _ _

  relays_saved :
      params.value_of "nostr_bridge.relay_urls" (set_values params base form p)
      ≡ form.nostr_relay_urls
  unfolding set_values
  relays_saved = laws.value_of-set_param_self _ _ _

  -- What the form shows after it was saved is what was entered, where a field that was empty is the empty
  -- text, whatever the framework stores of the form before.
  pub get_values-set_values : get_values params (set_values params base form p) ≡ record {
    gitlab_url = some (text_of form.gitlab_url);
    gitlab_private_token = some (text_of form.gitlab_private_token);
    use_alternative_publish = form.use_alternative_publish;
    nostr_relay_urls = some (text_of form.nostr_relay_urls);
  }
  unfolding get_values
  get_values-set_values =
      rw
        (
          url_saved,
          token_saved,
          flag_saved,
          relays_saved,
          shown_text form.gitlab_url,
          shown_text form.gitlab_private_token,
          shown_text form.nostr_relay_urls,
          shown_flag form.use_alternative_publish,
        )
        refl

-- After the token was cleared and the form saved, the synchronization finds GitLab not configured.
pub cleared_not_configured :
    {P : Type 0} (params : Parameters P)
    → IsLawful params
    → (base : ConfigForm → P → P) (form : ConfigForm) (p : P)
    → not_configured
        (settings_of params (set_values params base (action_clear_gitlab_token form).1 p))
      ≡ true
unfolding action_clear_gitlab_token
cleared_not_configured params laws base form p =
    rw (token_saved params laws base (action_clear_gitlab_token form).1 p) (or_true _)
