-- ===== src/Switch/Words.antt =====
-- src/daemon/switch_logic.rs: the word lists.
use open_switcher.Prelude.{List, [], ◌∷◌, String}

-- Short names of commands and tools.
abbrev pub excluded_words : List String
excluded_words =
    "sudo" ∷ "git" ∷ "cargo" ∷ "rustc" ∷ "python" ∷ "node" ∷ "grep" ∷ "echo" ∷ "ls" ∷ "cd" ∷ "rm"
    ∷ "mkdir" ∷ "apt" ∷ []

-- Technical terms, English in both directions.
abbrev pub technical_english_words : List String
technical_english_words =
    "api" ∷ "array" ∷ "async" ∷ "await" ∷ "cache" ∷ "class" ∷ "composer" ∷ "config" ∷ "css"
    ∷ "daemon" ∷ "debug" ∷ "dump" ∷ "error" ∷ "extends" ∷ "folder" ∷ "function" ∷ "html" ∷ "http"
    ∷ "https" ∷ "implements" ∷ "input" ∷ "interface" ∷ "json" ∷ "laravel" ∷ "layout" ∷ "middleware"
    ∷ "namespace" ∷ "output" ∷ "php" ∷ "private" ∷ "project" ∷ "protected" ∷ "public" ∷ "queue"
    ∷ "request" ∷ "repository" ∷ "response" ∷ "return" ∷ "screen" ∷ "service" ∷ "sql" ∷ "static"
    ∷ "switch" ∷ "thread" ∷ "trait" ∷ "var" ∷ "worker" ∷ "xml" ∷ "yaml" ∷ []

abbrev pub english_layout_no_vowel_technical_words : List String
english_layout_no_vowel_technical_words = "ssh" ∷ "src" ∷ "npm" ∷ "pwd" ∷ "pdf" ∷ "www" ∷ []

-- The keys of common Russian words.
abbrev pub russian_priority_physical_words : List String
russian_priority_physical_words =
    "kexit" ∷ "ckexbkjcm" ∷ "ckeifq" ∷ "gjckeifq" ∷ "ckexft" ∷ "here" ∷ "nhelyj" ∷ "ckexfq"
    ∷ "gjckeifqnt" ∷ "ckeifqnt" ∷ "ctreyle" ∷ "ckexbncz" ∷ "xedcndetim" ∷ "ckexfqyj" ∷ "ckeifnm"
    ∷ "ckturf" ∷ "ckexbnmcz" ∷ "ckexftncz" ∷ "uhelm" ∷ "ytkturj" ∷ "gentitcndbt" ∷ "ctreyljxre"
    ∷ "inere" ∷ "gjckeifnm" ∷ "ckeiftim" ∷ "eckeue" ∷ "ckeiftn" ∷ "ckexfz" ∷ "ckeifk" ∷ "nheljv"
    ∷ "uhflecjd" ∷ "cjnhelybrjd" ∷ "cjnhelybxfnm" ∷ "gjkexftim" ∷ "ckexftd" ∷ "eckeub" ∷ []

-- Common English words, for the Russian layout only.
abbrev pub ru_layout_common_english_words : List String
ru_layout_common_english_words =
    "you" ∷ "the" ∷ "and" ∷ "are" ∷ "can" ∷ "get" ∷ "not" ∷ "for" ∷ "but" ∷ "all" ∷ "one" ∷ "our"
    ∷ "out" ∷ "see" ∷ "use" ∷ "work" ∷ "home" ∷ "time" ∷ "know" ∷ "want" ∷ "make" ∷ "need" ∷ "like"
    ∷ "good" ∷ "love" ∷ "look" ∷ "come" ∷ "from" ∷ "have" ∷ "will" ∷ "with" ∷ "this" ∷ "that"
    ∷ "about" ∷ "after" ∷ "people" ∷ "because" ∷ "should" ∷ "would" ∷ "could" ∷ "really" ∷ "please"
    ∷ "thanks" ∷ []

-- Local to `has_strong_english_signal`.
abbrev pub strong_suffixes : List String
strong_suffixes = "ing" ∷ "tion" ∷ "ment" ∷ []

abbrev pub strong_trigrams : List String
strong_trigrams =
    "str" ∷ "ion" ∷ "ent" ∷ "ter" ∷ "est" ∷ "sys" ∷ "tem" ∷ "key" ∷ "fun" ∷ "nct" ∷ "ret" ∷ "tur"
    ∷ "urn" ∷ "pro" ∷ "ect" ∷ "swi" ∷ "tch" ∷ []

-- Local to `english_pattern_score`.
abbrev pub common_bigrams : List String
common_bigrams =
    "al" ∷ "ar" ∷ "as" ∷ "at" ∷ "bo" ∷ "br" ∷ "ch" ∷ "ck" ∷ "ct" ∷ "do" ∷ "ec" ∷ "ed" ∷ "el" ∷ "em"
    ∷ "en" ∷ "er" ∷ "es" ∷ "ex" ∷ "ey" ∷ "fi" ∷ "he" ∷ "il" ∷ "in" ∷ "it" ∷ "ke" ∷ "le" ∷ "ll"
    ∷ "lo" ∷ "mi" ∷ "na" ∷ "nd" ∷ "oa" ∷ "on" ∷ "ow" ∷ "pr" ∷ "re" ∷ "ro" ∷ "se" ∷ "st" ∷ "sw"
    ∷ "sy" ∷ "te" ∷ "th" ∷ "ti" ∷ "wi" ∷ "ws" ∷ "xt" ∷ "ys" ∷ []

abbrev pub common_trigrams : List String
common_trigrams =
    "ame" ∷ "bro" ∷ "cap" ∷ "cke" ∷ "doc" ∷ "ect" ∷ "ell" ∷ "erm" ∷ "est" ∷ "hel" ∷ "ina" ∷ "ing"
    ∷ "ion" ∷ "ita" ∷ "key" ∷ "lec" ∷ "llo" ∷ "min" ∷ "nal" ∷ "ock" ∷ "ows" ∷ "pro" ∷ "ret" ∷ "row"
    ∷ "sel" ∷ "ser" ∷ "swi" ∷ "sys" ∷ "tal" ∷ "tem" ∷ "ter" ∷ "tch" ∷ "tur" ∷ "urn" ∷ []

-- Local to `has_short_unlikely_english_cluster`.
abbrev pub unlikely_short_clusters : List String
unlikely_short_clusters = "bj" ∷ "bn" ∷ "bv" ∷ "fy" ∷ "kf" ∷ "lb" ∷ "tk" ∷ "yu" ∷ []

-- Local to `has_common_english_suffix`.
abbrev pub common_english_suffixes : List String
common_english_suffixes = "ed" ∷ "ing" ∷ "tion" ∷ "ment" ∷ "ly" ∷ "er" ∷ "est" ∷ []

-- Local to `has_common_english_bigram`.
abbrev pub common_english_bigrams : List String
common_english_bigrams =
    "th" ∷ "he" ∷ "in" ∷ "er" ∷ "an" ∷ "re" ∷ "on" ∷ "at" ∷ "en" ∷ "nd" ∷ "se" ∷ "ed" ∷ "te" ∷ "st"
    ∷ "el" ∷ "le" ∷ "ti" ∷ "io" ∷ "ou" ∷ "ll" ∷ "oo" ∷ []
