-- ===== src/Tests/Environment.antt =====
-- An environment file with a comment, a quoted value and a variable that is set twice.
use arcticworks_codepeer.Base.{◌≡◌, refl, none, some, if◌then◌else◌}
use arcticworks_codepeer.Base.Text.{Text, codes, text_eq, has_prefix, trim_space, cut, split}
use arcticworks_codepeer.Base.Result.{ok}
use arcticworks_codepeer.Config.Dotenv.{
  Environ, EnvFile, content, or_else, first_value, load_dotenv, load_dotenv-first_value,
}

abbrev sample_text : Text
sample_text = codes "# keys\nPORT = \"80\"\nPORT=81\nBOT_LOGIN=cp\n"

abbrev sample_environ : Environ
sample_environ key = if text_eq key (codes "BOT_LOGIN") then some (codes "peer") else none

abbrev one_file : Text → EnvFile
one_file path = content sample_text

sample-loads : (load_dotenv one_file sample_environ).0 ≡ ok tt
unfolding load_dotenv trim_space cut split has_prefix
sample-loads = refl

load_dotenv-first_value_example :
    (load_dotenv one_file sample_environ).1 (codes "PORT")
    ≡ or_else (sample_environ (codes "PORT")) (first_value (codes "PORT") (split sample_text b'\n'))
load_dotenv-first_value_example =
    load_dotenv-first_value one_file sample_environ sample_text refl sample-loads (codes "PORT")

port_is_80 : (load_dotenv one_file sample_environ).1 (codes "PORT") ≡ some (codes "80")
unfolding load_dotenv trim_space cut split has_prefix
port_is_80 = refl

bot_login_stays : (load_dotenv one_file sample_environ).1 (codes "BOT_LOGIN") ≡ some (codes "peer")
unfolding load_dotenv trim_space cut split has_prefix
bot_login_stays = refl
