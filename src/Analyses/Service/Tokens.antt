-- ===== src/Analyses/Service/Tokens.antt =====
-- analyses/analyses.service.ts, `mintEmbedToken`. `sign` is the JWT library's `signAsync`, on the
-- payload and the life of the token; `portal_url` is the configured one.
use Prim.Native.Char.{code}
use roya_api.Prelude.{
  String, ℕ, ◌+◌, ◌*◌, ◌≤◌, ◌<◌, ◌⊎◌, ◌&&◌, Option, none, some, List, [], ◌∷◌, if◌then◌else◌,
  or_else, find, leb, nat_beq, ◌==◌, string_eq, ◌≡◌, sym, ap, refl, arith,
}
use roya_api.Prelude.Text.{template}
use roya_api.Prelude.Reply.{Reply, done, refused, done-injective}
use roya_api.Documents.{Analysis, analysis_matches}
use roya_api.Analyses.Service.{analysis_not_found}

-- `Math.min(Math.max(n, 60), 24 * 60 * 60)`
abbrev pub clamp_ttl : ℕ → ℕ
clamp_ttl n =
    let low = if leb n 60 then 60 else n in if leb low (24 * 60 * 60) then low else 24 * 60 * 60

pub record EmbedTokenPayload : Type 0 where
  pub typ : String
  pub scope : String
  pub analysis_id : String
  pub organization_id : String
  pub allowed_origin : Option String

pub record CreateEmbedTokenDto : Type 0 where
  pub ttl_seconds : Option ℕ
  pub allowed_origin : Option String

pub record EmbedToken : Type 0 where
  pub token : String
  pub url : String
  pub expires_at : ℕ
  pub analysis_id : String

clamp_ttl-le : (n : ℕ) → (60 ≤ clamp_ttl n) × (clamp_ttl n ≤ 24 * 60 * 60)
clamp_ttl-le n = ground arith

clamp_ttl-cases :
    (n : ℕ)
    → (clamp_ttl n ≡ n)
      ⊎ ((clamp_ttl n ≡ 60) × (n < 60))
      ⊎ ((clamp_ttl n ≡ 24 * 60 * 60) × (24 * 60 * 60 < n))
clamp_ttl-cases n = ground arith

-- `.replace(/\/+$/, '')`
pub strip_slashes : String → String
strip_slashes String.[] = String.[]
strip_slashes (String.◌∷◌ c s) =
    let rest = strip_slashes s in
    if nat_beq (code c) b'/' && (rest == "") then String.[] else String.◌∷◌ c rest

module _ (sign : EmbedTokenPayload → ℕ → String) (portal_url : Option String) (now : ℕ) where
  abbrev embed_url : String → String → String → String
  embed_url base analysis_id token =
      if base == ""
      then ""
      else template (base ∷ "/embed/analyses/" ∷ analysis_id ∷ "?token=" ∷ token ∷ [])

  -- The answer for the analysis that is found.
  pub token_for : String → String → CreateEmbedTokenDto → Option Analysis → Reply EmbedToken
  unfolding strip_slashes
  token_for organization_id analysis_id dto none = refused analysis_not_found
  token_for organization_id analysis_id dto (some analysis) =
      let ttl_seconds : ℕ = clamp_ttl (or_else dto.ttl_seconds 900) in
      let token : String =
        sign
          (record {
            typ = "embed";
            scope = "analysis";
            analysis_id = analysis_id;
            organization_id = organization_id;
            allowed_origin = dto.allowed_origin;
          })
          ttl_seconds in
      done (record {
        token = token;
        url = embed_url (strip_slashes (or_else portal_url "")) analysis_id token;
        expires_at = now + ttl_seconds * 1000;
        analysis_id = analysis_id;
      })

  unfoldable pub mint_embed_token :
      String → String → CreateEmbedTokenDto → List Analysis → Reply EmbedToken
  unfolding token_for
  mint_embed_token organization_id analysis_id dto analyses =
      token_for organization_id analysis_id dto
        (find (analysis_matches organization_id analysis_id) analyses)

  -- What a token is: signed for the analysis of the organization, with the life it was asked for or
  -- the bound of a minute or a day that is nearest, and reported to expire at the end of that life.
  abbrev pub Minted : String → String → CreateEmbedTokenDto → EmbedToken → ℕ → Type 0
  Minted organization_id analysis_id dto t life =
      (60 ≤ life)
      × (life ≤ 24 * 60 * 60)
      × ((life ≡ or_else dto.ttl_seconds 900)
          ⊎ ((life ≡ 60) × (or_else dto.ttl_seconds 900 < 60))
          ⊎ ((life ≡ 24 * 60 * 60) × (24 * 60 * 60 < or_else dto.ttl_seconds 900)))
      × (t.token
          ≡ sign
              (record {
                typ = "embed";
                scope = "analysis";
                analysis_id = analysis_id;
                organization_id = organization_id;
                allowed_origin = dto.allowed_origin;
              })
              life)
      × (t.expires_at ≡ now + life * 1000)
      × (t.analysis_id ≡ analysis_id)

  -- A token that is given is signed for the analysis that was asked for, an analysis of the
  -- organization, and for a life of at least a minute and at most a day: the one that was asked for
  -- (15 minutes if none was), or the bound that it exceeds. The answer names the analysis, and the
  -- end of that life as the time of expiry.
  pub mint_embed_token-Minted :
      (organization_id analysis_id : String) (dto : CreateEmbedTokenDto) (analyses : List Analysis)
      (t : EmbedToken)
      → mint_embed_token organization_id analysis_id dto analyses ≡ done t
      → ((life : ℕ) × Minted organization_id analysis_id dto t life)
        × ((a : Analysis) × (find (analysis_matches organization_id analysis_id) analyses ≡ some a))
  unfolding mint_embed_token
  mint_embed_token-Minted organization_id analysis_id dto analyses t h =
      by_analysis (find (analysis_matches organization_id analysis_id) analyses) refl h
    where
      by_analysis :
          (found : Option Analysis)
          → find (analysis_matches organization_id analysis_id) analyses ≡ found
          → token_for organization_id analysis_id dto found ≡ done t
          → ((life : ℕ) × Minted organization_id analysis_id dto t life)
            × ((a : Analysis) × (find (analysis_matches organization_id analysis_id) analyses
                  ≡ some a))
      by_analysis none e h = absurd (cc)
      by_analysis (some a) e h =
          let minted = done-injective h in
          let (low, high) = clamp_ttl-le (or_else dto.ttl_seconds 900) in
          (
            (
              clamp_ttl (or_else dto.ttl_seconds 900),
              (
                low,
                high,
                clamp_ttl-cases (or_else dto.ttl_seconds 900),
                sym (ap (λ e. e.token) minted),
                sym (ap (λ e. e.expires_at) minted),
                sym (ap (λ e. e.analysis_id) minted),
              ),
            ),
            (a, e),
          )
