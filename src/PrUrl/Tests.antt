-- ===== src/PrUrl/Tests.antt =====
-- URLs of pull and merge requests.
use verustcode.Base.{some, [], ◌∷◌, ◌++◌, ◌≡◌, refl, arith}
use verustcode.Base.Int.{pos}
use verustcode.Llm.{bytes, bytes_eq, starts_with, find_from}
use verustcode.PrUrl.Text.{
  Bytes, digits, behind, segment, number_after, value, atoi, split, join, but_last, last,
  trim_prefix,
}
use verustcode.PrUrl.Build.{
  decimal, decimal_from, build_pr_url, slashes_to_dashes, build_clone_path,
}
use verustcode.PrUrl.{
  Library, PrInfo, parsed, refused, invalid_path, provider_of, detect_provider,
  extract_host_from_url, register_host, register_hosts_from_config, match_github, match_lazy,
  match_gitlab, gitlab_place, parse_github_url, parse_gitlab_url, parse,
}
use verustcode.PrUrl.Github.{pull_path}
use verustcode.PrUrl.RoundTrip.{parse-build_pr_url}

-- A library that knows one host.
abbrev library : Library
library = record {
  trim_space = λ s. s;
  lower_case = λ s. s;
  parse_url = λ s. some (bytes "github.com", trim_prefix (bytes "https://github.com") s);
}

files : parse_github_url (bytes "/octo/app/pull/12/files") ≡ parsed (bytes "octo", bytes "app", 12)
unfolding parse_github_url match_github behind segment number_after digits atoi value
files = refl

old_format :
    parse_gitlab_url (bytes "/group/app/merge_requests/3") ≡ parsed (bytes "group", bytes "app", 3)
unfolding parse_gitlab_url match_gitlab match_lazy behind number_after digits gitlab_place atoi
    value split join but_last last
old_format = refl

no_owner : parse_gitlab_url (bytes "/app/-/merge_requests/3") ≡ refused (invalid_path (bytes "app"))
unfolding parse_gitlab_url match_gitlab match_lazy behind number_after digits gitlab_place atoi
    value split
no_owner = refl

self_hosted :
    detect_provider
      (register_hosts_from_config library
        ((bytes "gitlab", bytes "http://git.example.com/x") ∷ [])
        [])
      (bytes "git.example.com")
      (bytes "/a/b/pull/1")
    ≡ bytes "gitlab"
unfolding detect_provider register_hosts_from_config register_host extract_host_from_url provider_of
    trim_prefix behind segment starts_with bytes_eq
self_hosted = refl

abbrev url_path : Bytes
url_path = pull_path (bytes "o") (bytes "r") 7 []

splits :
    library.parse_url (bytes "https://github.com" ++ url_path) ≡ some (bytes "github.com", url_path)
unfolding trim_prefix behind decimal decimal_from
splits = refl

known : detect_provider [] (bytes "github.com") url_path ≡ bytes "github"
unfolding detect_provider provider_of find_from starts_with
known = refl

parse-build_pr_url_example :
    parse library [] (build_pr_url (bytes "https://github.com/o/r.git") (bytes "github") (pos 7))
    ≡ parsed (record {
      provider = bytes "github";
      host = bytes "github.com";
      owner = bytes "o";
      repo = bytes "r";
      number = 7;
      original_url = bytes "https://github.com" ++ url_path;
    })
parse-build_pr_url_example =
    parse-build_pr_url library [] (bytes "https://github.com") (bytes "github.com") (bytes "o")
      (bytes "r") 6 refl splits refl refl known (refl, tt) refl (refl, tt) refl (omega arith)

abbrev nested : PrInfo
nested = record {
  provider = bytes "gitlab";
  host = bytes "gitlab.com";
  owner = bytes "a/b";
  repo = bytes "c";
  number = 1;
  original_url = [];
}

abbrev dashed : PrInfo
dashed = record nested { owner = bytes "a"; repo = bytes "b-c" }

-- Two repositories whose clones have one name.
shared_clone : build_clone_path nested ≡ build_clone_path dashed
unfolding build_clone_path slashes_to_dashes
shared_clone = refl
