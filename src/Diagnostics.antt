-- ===== src/Diagnostics.antt =====
-- error_diagnostics.py: the class of a provider's error, by the words of its message.
use ange_media_gateway.Text.{is_within}
use ange_media_gateway.Base.{◌||◌, true, false, if◌then◌else◌, Bool, List, String, [], ◌∷◌}

pub record Classification : Type 0 where
  pub error_category : String
  pub human_hint : String
  pub retryable : Bool
  pub gateway_stage : String

abbrev pub contains_any : List String → String → Bool
unfolding is_within
contains_any [] message = false
contains_any (term ∷ terms) message = is_within term message || contains_any terms message

-- `message` is in lower case.
unfoldable pub classify_lowered : String → Classification
unfolding is_within
classify_lowered message =
    if contains_any ("model disabled" ∷ "model not found" ∷ "unavailable" ∷ "30003" ∷ []) message
    then record {
      error_category = "model_unavailable";
      human_hint = "请更换模型或检查服务商模型是否可用";
      retryable = false;
      gateway_stage = "provider_response";
    }
    else if contains_any ("content policy" ∷ "filtered" ∷ "safety" ∷ "moderation" ∷ []) message
    then record {
      error_category = "content_filtered";
      human_hint = "请调整提示词内容后重试";
      retryable = false;
      gateway_stage = "provider_response";
    }
    else if contains_any
        ("401" ∷ "403" ∷ "unauthorized" ∷ "invalid api key" ∷ "authentication" ∷ []) message
    then record {
      error_category = "auth_failed";
      human_hint = "请检查 Provider API Key 或认证配置";
      retryable = false;
      gateway_stage = "provider_response";
    }
    else if contains_any ("429" ∷ "rate limit" ∷ "quota" ∷ "insufficient balance" ∷ []) message
    then record {
      error_category = "provider_rate_limited";
      human_hint = "请稍后重试或检查服务商额度/限速";
      retryable = true;
      gateway_stage = "provider_response";
    }
    else record {
      error_category = "unknown_provider_error";
      human_hint = "请稍后重试；如果持续失败，请检查 Provider 配置";
      retryable = true;
      gateway_stage = "provider_response";
    }

-- `lower` is `str.lower`.
unfoldable pub classify_provider_error : (lower : String → String) → String → Classification
unfolding classify_lowered
classify_provider_error lower message = classify_lowered (lower message)
